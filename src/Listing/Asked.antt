-- ===== src/Listing/Asked.antt =====
-- Which pages a listing asks for, in whatever order the replies come.
use notification_platform.Base.{List, [], ◌∷◌, ◌++◌, ◌≡◌, ◌==◌, inl, inr, Bool-cases, All}
use mathlib.Core.Path.{subst}
use notification_platform.Widgets.Paging as Pages
use notification_platform.Widgets.Paging.{
  Paging, IsValid, first_page, reset_page, refilter, Reach-IsValid, Step-IsValid,
}
use notification_platform.Listing.Rows.{
  Listing, query, load, opened, turned, refiltered, arrived, failed,
}

module _ {A : Type 0} (P : A → Type 0) where
  All-snoc : (xs : List A) (a : A) → All P xs → P a → All P (xs ++ a ∷ [])
  All-snoc [] a h p = (p, tt)
  All-snoc (x ∷ xs) a h p = (h.0, All-snoc xs a h.1 p)

  All-without : (xs ys : List A) (a : A) → All P (xs ++ a ∷ ys) → All P (xs ++ ys)
  All-without [] ys a h = h.1
  All-without (x ∷ xs) ys a h = (h.0, All-without xs ys a h.1)

module _ {F : Type 0} where
  -- A page that the server can be asked for.
  abbrev pub IsValidQuery : F × Paging → Type 0
  IsValidQuery q = IsValid q.1

module _ {F R : Type 0} where
  -- The buttons of the pages, the rows menu and the filters are used, and any request under way is
  -- answered or fails.
  pub data Move (l : Listing F R) : Listing F R → Type 0 where
    reload : Move l (load l)
    turn : (p : Paging) → Pages.Step l.paging p → Move l (turned p l)
    filter : (f : F) → Move l (refiltered f l)
    reply :
        (r : R) (q : F × Paging) (before after : List (F × Paging))
        → l.pending ≡ before ++ q ∷ after
        → Move l (arrived r (before ++ after) l)
    failure :
        (q : F × Paging) (before after : List (F × Paging))
        → l.pending ≡ before ++ q ∷ after
        → Move l (failed (before ++ after) l)

  pub data Moves (f : F) : Listing F R → Type 0 where
    start : Moves f (opened f)
    next : {l k : Listing F R} → Moves f l → Move l k → Moves f k

  pub record AsksValid (l : Listing F R) : Type 0 where
    pub current : IsValid l.paging
    pub asked : All IsValidQuery l.pending

  load-AsksValid : (l : Listing F R) → AsksValid l → AsksValid (load l)
  unfolding load
  load-AsksValid l v = record {
    current = v.current;
    asked = All-snoc IsValidQuery l.pending (query l) v.asked v.current;
  }

  turned-AsksValid :
      (p : Paging) (l : Listing F R) → IsValid p → AsksValid l → AsksValid (turned p l)
  unfolding turned
  turned-AsksValid p l h v =
      let loaded =
        load-AsksValid (record l { paging = p }) (record { current = h; asked = v.asked }) in
      elim (Bool-cases (p.page == l.paging.page)) [
        | inr e ↦ rw e loaded
        | inl e ↦ rw e (elim (Bool-cases (p.per_page == l.paging.per_page)) [
          | inr d ↦ rw d loaded
          | inl d ↦ rw d v
        ])
      ]

  Move-AsksValid : {l k : Listing F R} → Move l k → AsksValid l → AsksValid k
  unfolding refiltered arrived failed load
  Move-AsksValid {l} reload v = load-AsksValid l v
  Move-AsksValid {l} (turn p s) v = turned-AsksValid p l (Step-IsValid s v.current) v
  Move-AsksValid {l} (filter f) v =
      turned-AsksValid (reset_page l.paging) (load (record l { filter = f }))
        (Step-IsValid refilter v.current)
        (load-AsksValid (record l { filter = f }) (record { current = v.current; asked = v.asked }))
  Move-AsksValid {l} (reply r q before after e) v = record {
    current = v.current;
    asked = All-without IsValidQuery before after q (subst (All IsValidQuery) e v.asked);
  }
  Move-AsksValid {l} (failure q before after e) v = record {
    current = v.current;
    asked = All-without IsValidQuery before after q (subst (All IsValidQuery) e v.asked);
  }

  -- However a listing is used and in whatever order its requests are answered, every request under
  -- way asks for a page that is at least 1, with a size of the rows menu, and so does the next one.
  pub Moves-AsksValid : {f : F} {l : Listing F R} → Moves f l → AsksValid l
  unfolding opened first_page
  Moves-AsksValid {f} start =
      let valid : IsValid first_page = Reach-IsValid Pages.here in
      record { current = valid; asked = (valid, tt) }
  Moves-AsksValid (next m s) = Move-AsksValid s (Moves-AsksValid m)
