-- ===== src/Widgets/Toast.antt =====
-- notification-admin-ui/src/components/Toast.tsx: the stack of toasts.
use notification_platform.Base.{
  ℕ, zero, suc, ◌+◌, ◌-◌, ◌≤◌, String, false, not, Option, List, [], ◌∷◌, ◌++◌, ◌≡◌, refl, ◌↔◌,
  arith, ◌==◌, length, length-append, drop, filter, Member, Member-filter,
}

pub data ToastKind : Type 0 where
  success error info : ToastKind

pub record ToastItem : Type 0 where
  pub id : ℕ
  pub kind : ToastKind
  pub title : String
  pub message : Option String

-- `.slice(-4)`
unfoldable pub last_four : List ToastItem → List ToastItem
last_four items = drop (length items - 4) items

-- `push`, where `now` is `Date.now()` and `jitter` is `Math.floor(Math.random() * 1000)`.
unfoldable pub push : ℕ → ℕ → ToastKind → String → Option String → List ToastItem → List ToastItem
unfolding last_four
push now jitter kind title message current =
    last_four
      (current ++ record { id = now + jitter; kind = kind; title = title; message = message } ∷ [])

-- The timer of a toast, and its dismiss button: both remove the items with that id.
unfoldable pub dismiss : ℕ → List ToastItem → List ToastItem
dismiss id current = filter (λ item. not (item.id == id)) current

length-drop : {A : Type 0} (n : ℕ) (xs : List A) → length (drop n xs) ≡ length xs - n
length-drop zero xs = omega arith
length-drop (suc n) [] = omega arith
length-drop (suc n) (x ∷ xs) = omega (arith, length-drop n xs)

drop-concat :
    {A : Type 0} (n : ℕ) (xs : List A) (x : A)
    → n ≤ length xs
    → drop n (xs ++ x ∷ []) ≡ drop n xs ++ x ∷ []
drop-concat zero xs x h = refl
drop-concat (suc n) [] x h = elim h [ ]
drop-concat (suc n) (y ∷ xs) x h = drop-concat n xs x (omega arith)

-- The new toast stands last, below at most the three newest of the toasts that were shown, in the
-- order they had; so at most four are shown.
pub push-keeps :
    (now jitter : ℕ) (kind : ToastKind) (title : String) (message : Option String)
    (current : List ToastItem)
    → (push now jitter kind title message current
        ≡ drop (length current - 3) current
          ++ record { id = now + jitter; kind = kind; title = title; message = message } ∷ [])
      × (length (push now jitter kind title message current) ≤ 4)
unfolding push
push-keeps now jitter kind title message current =
    let toast : ToastItem = record {
      id = now + jitter;
      kind = kind;
      title = title;
      message = message;
    } in
    let n = length-append current (toast ∷ []) in
    let shift : length (current ++ toast ∷ []) - 4 ≡ length current - 3 = omega (arith, n) in
    (
      rw shift (drop-concat (length current - 3) current toast (omega arith)),
      omega (arith, n, length-drop (length (current ++ toast ∷ []) - 4) (current ++ toast ∷ [])),
    )

-- Dismissing an id removes every toast that has it and no other.
pub dismiss_iff :
    (id : ℕ) (current : List ToastItem) (item : ToastItem)
    → Member item (dismiss id current) ↔ (Member item current × ((item.id == id) ≡ false))
unfolding dismiss
dismiss_iff id current item =
    let m = Member-filter (λ i. not (i.id == id)) current item in
    ((λ h. ((m.0 h).0, ground (arith, (m.0 h).1))), (λ h. m.1 (h.0, ground (arith, h.1))))
