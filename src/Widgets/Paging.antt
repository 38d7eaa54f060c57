-- ===== src/Widgets/Paging.antt =====
-- notification-admin-ui/src/hooks/usePagination.ts and src/components/TablePagination.tsx, with
-- `PaginationMeta` of src/types/api.ts (paths below notification-admin-ui).
use Prim.Native.Nat.{max, min}
use native.Mathlib.Nat.{suc-mul, mul-le-mul_right}
use notification_platform.Base.{
  ℕ, zero, suc, ◌+◌, ◌-◌, ◌*◌, ◌≤◌, ◌<◌, Bool, false, Option, none, some, List, [], ◌∷◌, ◌≡◌, refl,
  ap, inl, inr, arith, leb, if◌then◌else◌, ◌==◌, Member,
}

pub record PaginationMeta : Type 0 where
  pub page : ℕ
  pub per_page : ℕ
  pub total : ℕ
  pub total_pages : ℕ

-- The state of `usePagination`.
pub record Paging : Type 0 where
  pub page : ℕ
  pub per_page : ℕ

unfoldable pub first_page : Paging
first_page = record { page = 1; per_page = 25 }

-- `setPage`
unfoldable pub set_page : ℕ → Paging → Paging
set_page page p = record p { page = page }

-- `setPerPage`
unfoldable pub set_per_page : ℕ → Paging → Paging
set_per_page value p = record { page = 1; per_page = value }

-- The effect on the reset keys.
unfoldable pub reset_page : Paging → Paging
reset_page p = record p { page = 1 }

-- What `TablePagination` computes from the last reply's meta.
pub record Window : Type 0 where
  pub total : ℕ
  pub total_pages : ℕ
  pub from : ℕ
  pub to : ℕ
  pub previous_disabled : Bool
  pub next_disabled : Bool

abbrev total_of : Option PaginationMeta → ℕ
total_of none = 0
total_of (some m) = m.total

abbrev total_pages_of : Option PaginationMeta → ℕ
total_pages_of none = 1
total_pages_of (some m) = m.total_pages

unfoldable pub window : Option PaginationMeta → Paging → Window
window meta p = record {
  total = total_of meta;
  total_pages = max 1 (total_pages_of meta);
  from = if total_of meta == 0 then 0 else (p.page - 1) * p.per_page + 1;
  to = min (p.page * p.per_page) (total_of meta);
  previous_disabled = leb p.page 1;
  next_disabled = leb (max 1 (total_pages_of meta)) p.page;
}

-- The choices of the rows menu.
abbrev pub sizes : List ℕ
sizes = 10 ∷ 25 ∷ 50 ∷ 100 ∷ []

-- The buttons act unless they are disabled; any reply may have come before a press.
pub data Step (p : Paging) : Paging → Type 0 where
  previous :
      (meta : Option PaginationMeta)
      → (window meta p).previous_disabled ≡ false
      → Step p (set_page (p.page - 1) p)
  following :
      (meta : Option PaginationMeta)
      → (window meta p).next_disabled ≡ false
      → Step p (set_page (p.page + 1) p)
  rows : (size : ℕ) → Member size sizes → Step p (set_per_page size p)
  refilter : Step p (reset_page p)

pub data Reach : Paging → Type 0 where
  here : Reach first_page
  next : {p q : Paging} → Reach p → Step p q → Reach q

-- A page that the server can be asked for.
pub record IsValid (p : Paging) : Type 0 where
  pub counted : 1 ≤ p.page
  pub sized : Member p.per_page sizes

pub Step-IsValid : {p q : Paging} → Step p q → IsValid p → IsValid q
unfolding window set_page set_per_page reset_page
Step-IsValid {p} (previous meta h) v = record { counted = ground arith; sized = v.sized }
Step-IsValid {p} (following meta h) v = record { counted = omega arith; sized = v.sized }
Step-IsValid (rows size m) v = record { counted = omega arith; sized = m }
Step-IsValid refilter v = record { counted = omega arith; sized = v.sized }

-- However the table is paged, sized and filtered, the page asked for is at least 1 and its size is
-- one of the menu's.
pub Reach-IsValid : {p : Paging} → Reach p → IsValid p
unfolding first_page
Reach-IsValid here = record { counted = omega arith; sized = inr (inl refl) }
Reach-IsValid (next r s) = Step-IsValid s (Reach-IsValid r)

-- The server's count of pages is right: they hold all rows, and the last is not empty.
pub record IsCounted (m : PaginationMeta) (size : ℕ) : Type 0 where
  pub enough : m.total ≤ m.total_pages * size
  pub needed : (m.total_pages - 1) * size < m.total

page_products :
    (page pages size : ℕ)
    → 1 ≤ page
    → page ≤ pages
    → (page * size ≡ (page - 1) * size + size)
      × ((page - 1) * size ≤ (pages - 1) * size)
      × (page < pages → page * size ≤ (pages - 1) * size)
page_products zero pages size h k = elim h [ ]
page_products (suc q) zero size h k = elim k [ ]
page_products (suc q) (suc n) size h k =
    let e : suc q - 1 ≡ q = omega arith in
    let f : suc n - 1 ≡ n = omega arith in
    rw (e, f)
      (
        suc-mul q size,
        mul-le-mul_right size (omega arith),
        λ l. mul-le-mul_right size (omega arith),
      )

size_pos : (total pages size : ℕ) → 0 < total → total ≤ pages * size → 0 < size
size_pos total pages zero h k = absurd (omega arith)
size_pos total pages (suc size) h k = omega arith

from_pos : (total first : ℕ) → 0 < total → (if total == 0 then 0 else first) ≡ first
from_pos total first h = ground arith

-- On a page up to the last, with the server's count of pages right, the summary names rows that
-- exist, at most a page of them; the next page begins with the row after them, and the last page
-- ends with the last row.
pub window_tiles :
    (m : PaginationMeta) (p : Paging)
    → IsCounted m p.per_page
    → 1 ≤ p.page
    → p.page ≤ m.total_pages
    → let w = window (some m) p in
      (1 ≤ w.from)
      × (w.from ≤ w.to)
      × (w.to ≤ m.total)
      × (w.to + 1 ≤ w.from + p.per_page)
      × (p.page < m.total_pages → (window (some m) (set_page (p.page + 1) p)).from ≡ w.to + 1)
      × (p.page ≡ m.total_pages → w.to ≡ m.total)
unfolding window set_page
window_tiles m p c h k =
    let (whole, before, inner) = page_products p.page m.total_pages p.per_page h k in
    let some_rows : 0 < m.total = omega (arith, c.needed) in
    let some_size = size_pos m.total m.total_pages p.per_page some_rows c.enough in
    let shift : p.page + 1 - 1 ≡ p.page = omega arith in
    rw (from_pos m.total _ some_rows, shift, from_pos m.total (p.page * p.per_page + 1) some_rows)
      (
        omega arith,
        omega (arith, c.needed),
        omega arith,
        omega (arith, c.needed),
        λ l. omega (arith, c.needed, inner l),
        λ e. omega (arith, c.enough, ap (λ n. n * p.per_page) e),
      )

-- After the rows before the page have gone, so that the page lies past the last row, the summary
-- names a first row behind its last one.
pub window_past_end :
    (m : PaginationMeta) (p : Paging)
    → 0 < m.total
    → m.total ≤ (p.page - 1) * p.per_page
    → (window (some m) p).to < (window (some m) p).from
unfolding window
window_past_end m p h k = rw (from_pos m.total _ h) (omega arith)
