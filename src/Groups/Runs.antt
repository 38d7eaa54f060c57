-- ===== src/Groups/Runs.antt =====
-- The members shown by GroupsPage.tsx while no member is added or removed.
use notification_platform.Base.{
  String, Option, none, some, List, [], ◌∷◌, ◌++◌, ◌≡◌, refl, ap, inl, inr, Bool-cases,
}
use mathlib.Core.Path.{subst}
use notification_platform.Listing.Order.{EndsWith, EndsWith-snoc}
use notification_platform.Groups.Page.{
  Person, GroupsPage, GroupRequest, load_members, initial, is_expanded, toggle_group, close_members,
  members_loaded,
}

-- The page, and the groups whose members are awaited, oldest first.
pub record Modal : Type 0 where
  pub page : GroupsPage
  pub awaited : List String

-- The request of `toggle_group` joins those under way.
abbrev joined : Option GroupRequest → List String → List String
joined (some (load_members id)) xs = xs ++ id ∷ []
joined request xs = xs

abbrev pub toggle : String → Modal → Modal
toggle id s =
    let (request, page) = toggle_group id s.page in
    record { page = page; awaited = joined request s.awaited }

module _ (serve : String → List Person) where
  -- The server answers the requests in their order.
  pub data Step (s : Modal) : Modal → Type 0 where
    view : (id : String) → Step s (toggle id s)
    close : Step s (record s { page = close_members s.page })
    reply :
        (id : String) (rest : List String)
        → s.awaited ≡ id ∷ rest
        → Step s (record { page = members_loaded (serve id) s.page; awaited = rest })

  pub data Reach : Modal → Type 0 where
    here : Reach (record { page = initial; awaited = [] })
    next : {s t : Modal} → Reach s → Step s t → Reach t

  -- The members of the group that is shown are there, or are the last that were asked for.
  Shows : List String → Option String → List Person → Type 0
  Shows awaited none members = Unit
  Shows [] (some id) members = members ≡ serve id
  Shows (x ∷ xs) (some id) members = EndsWith id (x ∷ xs)

  Shows-snoc :
      (xs : List String) (id : String) (members : List Person)
      → Shows (xs ++ id ∷ []) (some id) members
  unfolding Shows
  Shows-snoc [] id members = refl
  Shows-snoc (x ∷ xs) id members = EndsWith-snoc id (x ∷ xs)

  Shows-reply :
      (xs : List String) (id : String) (shown : Option String) (members : List Person)
      → Shows (id ∷ xs) shown members
      → Shows xs shown (serve id)
  unfolding Shows
  Shows-reply xs id none members h = tt
  Shows-reply [] id (some g) members h = ap serve h
  Shows-reply (x ∷ xs) id (some g) members h = h

  abbrev ShowsOn : Modal → Type 0
  ShowsOn s = Shows s.awaited s.page.expanded s.page.members

  toggle-Shows : (id : String) (s : Modal) → ShowsOn (toggle id s)
  unfolding toggle_group Shows
  toggle-Shows id s = elim (Bool-cases (is_expanded id s.page.expanded)) [
    | inl e ↦ rw e tt
    | inr e ↦ rw e (Shows-snoc s.awaited id s.page.members)
  ]

  Step-Shows : {s t : Modal} → Step s t → ShowsOn s → ShowsOn t
  unfolding members_loaded close_members Shows
  Step-Shows {s} (view id) h = toggle-Shows id s
  Step-Shows {s} close h = tt
  Step-Shows {s} (reply id rest e) h =
      Shows-reply rest id s.page.expanded s.page.members
        (subst (λ xs. Shows xs s.page.expanded s.page.members) e h)

  Reach-Shows : {s : Modal} → Reach s → ShowsOn s
  unfolding initial Shows
  Reach-Shows here = tt
  Reach-Shows (next r step) = Step-Shows step (Reach-Shows r)

  -- While groups are only opened and closed, and the server answers in order, the modal of a group
  -- shows the members of that group once no request is under way.
  pub Reach-members :
      (s : Modal) (id : String)
      → Reach s
      → s.awaited ≡ []
      → s.page.expanded ≡ some id
      → s.page.members ≡ serve id
  unfolding Shows
  Reach-members s id r e f =
      subst (λ o. Shows [] o s.page.members) f
        (subst (λ xs. Shows xs s.page.expanded s.page.members) e (Reach-Shows r))
