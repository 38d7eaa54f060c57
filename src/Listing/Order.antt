-- ===== src/Listing/Order.antt =====
-- Which rows a listing shows, by the order in which the server answers.
use notification_platform.Base.{
  ℕ, true, false, some, List, [], ◌∷◌, ◌++◌, ◌==◌, ◌≡◌, refl, ◌≢◌, ◌⊎◌, inl, inr, arith, ap, sym,
  ◌∙◌, Bool-cases,
}
use mathlib.Core.Path.{ap₂, subst}
use notification_platform.Widgets.Paging.{Paging, first_page, set_page, set_per_page, reset_page}
use notification_platform.Listing.Rows.{
  Listing, query, load, opened, turned, to_page, to_per_page, refiltered, arrived, failed,
}

-- What happens to a listing: the rows of a query are asked for, another page or page size is chosen, which
-- may be the one that it has, a reply comes, or a request fails.
pub data Event (Q : Type 0) : Type 0 where
  wants turns : Q → Event Q
  answers fails : Event Q

module _ {F R : Type 0} (serve : F × Paging → R) where
  -- What a page does while the server answers the requests of one page in the order they were sent.
  pub data Step (l : Listing F R) : Event (F × Paging) → Listing F R → Type 0 where
    reload : Step l (wants (query l)) (load l)
    page : (n : ℕ) → Step l (turns (l.filter, set_page n l.paging)) (to_page n l)
    rows : (n : ℕ) → Step l (turns (l.filter, set_per_page n l.paging)) (to_per_page n l)
    filter : (f : F) → Step l (wants (f, reset_page l.paging)) (refiltered f l)
    reply :
        (q : F × Paging) (rest : List (F × Paging))
        → l.pending ≡ q ∷ rest
        → Step l answers (arrived (serve q) rest l)
    failure :
        (q : F × Paging) (rest : List (F × Paging))
        → l.pending ≡ q ∷ rest
        → Step l fails (failed rest l)

  -- The listings reached from one that was opened, with what happened to them, the last first.
  pub data Reach (f : F) : List (Event (F × Paging)) → Listing F R → Type 0 where
    here : Reach f [] (opened f)
    next :
        {l k : Listing F R} {e : Event (F × Paging)} {es : List (Event (F × Paging))}
        → Reach f es l
        → Step l e k
        → Reach f (e ∷ es) k

-- What a table promises: the rows of a query are awaited, shown, or could not be had.
pub data Promise (Q : Type 0) : Type 0 where
  awaited delivered missed : Q → Promise Q

abbrev pub of_promise : {Q : Type 0} → Promise Q → Q
of_promise (awaited q) = q
of_promise (delivered q) = q
of_promise (missed q) = q

-- A table awaits the rows that are asked for, and those of another page than it has; only a reply
-- delivers them, and only a failure makes them missed; before the last answer it awaits them still.
pub data Serves {Q : Type 0} : Event Q → Promise Q → Promise Q → Type 0 where
  ask : {s : Promise Q} {q : Q} → Serves (wants q) s (awaited q)
  same : {s : Promise Q} → Serves (turns (of_promise s)) s s
  turn : {s : Promise Q} {q : Q} → Serves (turns q) s (awaited q)
  before_reply : {q : Q} → Serves answers (awaited q) (awaited q)
  before_failure : {q : Q} → Serves fails (awaited q) (awaited q)
  deliver : {q : Q} → Serves answers (awaited q) (delivered q)
  miss : {q : Q} → Serves fails (awaited q) (missed q)

module _ {A : Type 0} where
  -- The last element is `a`.
  abbrev pub EndsWith : A → List A → Type 0
  EndsWith a [] = ⊥
  EndsWith a (x ∷ []) = x ≡ a
  EndsWith a (x ∷ y ∷ xs) = EndsWith a (y ∷ xs)

  pub EndsWith-snoc : (a : A) (xs : List A) → EndsWith a (xs ++ a ∷ [])
  EndsWith-snoc a [] = refl
  EndsWith-snoc a (x ∷ []) = refl
  EndsWith-snoc a (x ∷ y ∷ xs) = EndsWith-snoc a (y ∷ xs)

same_paging : (p r : Paging) → (p.page == r.page) ≡ true → (p.per_page == r.per_page) ≡ true → p ≡ r
same_paging p r e d =
    ap₂ (λ page per_page. record { page = page; per_page = per_page }) (ground arith) (ground arith)

module _ {F R : Type 0} (serve : F × Paging → R) where
  -- The listing keeps the promise.
  abbrev pub Keeps : Listing F R → Promise (F × Paging) → Type 0
  Keeps l (awaited q) = (q ≡ query l) × EndsWith q l.pending
  Keeps l (delivered q) =
      (q ≡ query l) × (l.pending ≡ []) × (l.loading ≡ false) × (l.shown ≡ some (serve q))
  Keeps l (missed q) = (q ≡ query l) × (l.pending ≡ []) × (l.loading ≡ false)

  -- A step of the listing is one of the promise.
  abbrev pub Follows : Event (F × Paging) → Promise (F × Paging) → Listing F R → Type 0
  Follows e s k = (t : Promise (F × Paging)) × Serves e s t × Keeps k t

  Keeps-query : (l : Listing F R) (s : Promise (F × Paging)) → Keeps l s → of_promise s ≡ query l
  Keeps-query l (awaited q) h = h.0
  Keeps-query l (delivered q) h = h.0
  Keeps-query l (missed q) h = h.0

  load-Keeps : (l : Listing F R) → Keeps (load l) (awaited (query l))
  unfolding load
  load-Keeps l = (refl, EndsWith-snoc (query l) l.pending)

  -- The effect of another paging asks for it, or leaves the listing, which has it, as it was.
  turned_cases :
      (p : Paging) (l : Listing F R)
      → ((turned p l ≡ l) × (p ≡ l.paging)) ⊎ Keeps (turned p l) (awaited (l.filter, p))
  unfolding turned
  turned_cases p l = elim (Bool-cases (p.page == l.paging.page)) [
    | inr e ↦ rw e (inr (load-Keeps (record l { paging = p })))
    | inl e ↦ rw e (elim (Bool-cases (p.per_page == l.paging.per_page)) [
      | inr d ↦ rw d (inr (load-Keeps (record l { paging = p })))
      | inl d ↦ rw d (inl (refl, same_paging p l.paging e d))
    ])
  ]

  turned-Follows :
      (p : Paging) (l : Listing F R) (s : Promise (F × Paging))
      → Keeps l s
      → Follows (turns (l.filter, p)) s (turned p l)
  turned-Follows p l s h = elim (turned_cases p l) [
    | inl (e, d) ↦
        let q : of_promise s ≡ (l.filter, p) =
          Keeps-query l s h ∙ ap (λ r. (l.filter, r)) (sym d) in
        rw e (s, subst (λ r. Serves (turns r) s s) q same, h)
    | inr k ↦ (awaited (l.filter, p), turn, k)
  ]

  asked-Follows :
      (p : Paging) (l : Listing F R) (s : Promise (F × Paging))
      → Keeps l (awaited (query l))
      → Follows (wants (l.filter, p)) s (turned p l)
  asked-Follows p l s h = elim (turned_cases p l) [
    | inl (e, d) ↦
        rw e (awaited (l.filter, p), ask, subst (λ r. Keeps l (awaited (l.filter, r))) (sym d) h)
    | inr k ↦ (awaited (l.filter, p), ask, k)
  ]

  -- The first request under way is the last, which the promise is about, or comes before it.
  EndsWith-cases :
      (a x : F × Paging) (xs : List (F × Paging))
      → EndsWith a (x ∷ xs)
      → ((xs ≡ []) × (x ≡ a)) ⊎ EndsWith a xs
  EndsWith-cases a x [] h = inl (refl, h)
  EndsWith-cases a x (y ∷ ys) h = inr h

  oldest_cases :
      (l : Listing F R) (s : Promise (F × Paging)) (q : F × Paging) (rest : List (F × Paging))
      → l.pending ≡ q ∷ rest
      → Keeps l s
      → (s ≡ awaited (query l)) × (((rest ≡ []) × (q ≡ query l)) ⊎ EndsWith (query l) rest)
  oldest_cases l (awaited a) q rest e h = (
    ap awaited h.0,
    EndsWith-cases (query l) q rest
        (subst (λ xs. EndsWith (query l) xs) e (subst (λ b. EndsWith b l.pending) h.0 h.1)),
  )
  oldest_cases l (delivered a) q rest e h = absurd (cc (e, h.1))
  oldest_cases l (missed a) q rest e h = absurd (cc (e, h.1))

  reply-Follows :
      (l : Listing F R) (s : Promise (F × Paging)) (q : F × Paging) (rest : List (F × Paging))
      → l.pending ≡ q ∷ rest
      → Keeps l s
      → Follows answers s (arrived (serve q) rest l) × Follows fails s (failed rest l)
  unfolding arrived failed
  reply-Follows l s q rest e h =
      let (a, c) = oldest_cases l s q rest e h in
      elim c [
        | inl d ↦
            rw (a, d.0)
              (
                (delivered (query l), deliver, (refl, refl, refl, ap (λ x. some (serve x)) d.1)),
                (missed (query l), miss, (refl, refl, refl)),
              )
        | inr d ↦ rw a (
          (awaited (query l), before_reply, (refl, d)),
          (awaited (query l), before_failure, (refl, d)),
        )
      ]

  Step-Follows :
      {l k : Listing F R} {e : Event (F × Paging)} (s : Promise (F × Paging))
      → Step serve l e k
      → Keeps l s
      → Follows e s k
  unfolding to_page to_per_page refiltered
  Step-Follows {l} s reload h = (awaited (query l), ask, load-Keeps l)
  Step-Follows {l} s (page n) h = turned-Follows (set_page n l.paging) l s h
  Step-Follows {l} s (rows n) h = turned-Follows (set_per_page n l.paging) l s h
  Step-Follows {l} s (filter f) h =
      asked-Follows (reset_page l.paging) (load (record l { filter = f })) s
        (load-Keeps (record l { filter = f }))
  Step-Follows {l} s (reply q rest e) h = (reply-Follows l s q rest e h).0
  Step-Follows {l} s (failure q rest e) h = (reply-Follows l s q rest e h).1

  pub data Runs (s : Promise (F × Paging))
      : List (Event (F × Paging)) → Promise (F × Paging) → Type 0 where
    rest : Runs s [] s
    more :
        {t u : Promise (F × Paging)} {e : Event (F × Paging)} {es : List (Event (F × Paging))}
        → Runs s es t
        → Serves e t u
        → Runs s (e ∷ es) u

  -- While replies come in the order of their requests, a listing does what a table promises, event by
  -- event: it awaits the rows that were asked for last until the request for them is answered. A reply
  -- to it makes the listing show the rows that the server has for its query, a failure leaves them
  -- missing, and in both cases no request is under way and it is not loading. It may be paged,
  -- filtered and loaded again at any time.
  pub Reach-Runs :
      {f : F} {es : List (Event (F × Paging))} {l : Listing F R}
      → Reach serve f es l
      → (s : Promise (F × Paging)) × Runs (awaited (f, first_page)) es s × Keeps l s
  unfolding opened
  Reach-Runs {f} here = (awaited (f, first_page), rest, (refl, refl))
  Reach-Runs (next r step) =
      let (s, run, keeps) = Reach-Runs r in
      let (t, serves, kept) = Step-Follows s step keeps in (t, more run serves, kept)

  -- A filter is chosen on a later page while no request is under way: two requests are sent, the
  -- first for that page of the new rows. If its reply comes last, the table ends on page 1 of the new
  -- filter, with no request under way and not loading, and shows the rows of the later page.
  pub refiltered-overtaken :
      (f : F) (l : Listing F R)
      → l.pending ≡ []
      → l.paging.page ≢ 1
      → let m = refiltered f l in
        let late : F × Paging = (f, l.paging) in
        let k = arrived (serve late) [] (arrived (serve (query m)) (late ∷ []) m) in
        (m.pending ≡ late ∷ query m ∷ [])
        × (k.filter ≡ f)
        × (k.paging ≡ reset_page l.paging)
        × (k.pending ≡ [])
        × (k.loading ≡ false)
        × (k.shown ≡ some (serve late))
  unfolding refiltered arrived turned load reset_page
  refiltered-overtaken f l e n =
      let d : (1 == l.paging.page) ≡ false = ground arith in
      rw (d, e) (refl, refl, refl, refl, refl, refl)
