-- ===== src/Users/Editing/Fits.antt =====
-- The role that the dialog of UsersPage.tsx assigns to the user that is edited.
use notification_platform.Base.{
  String, Bool, true, false, Option, none, some, List, [], ◌∷◌, find, sym, truthy, ◌===◌, ◌≡◌, ◌≢◌,
  refl, ap, ◌∙◌, ◌⊎◌, inl, inr, arith, eq_iff, Member, Member-filter, Bool-cases,
}
use notification_platform.Users.Page.{
  User, UserRole, UsersPage, Assignment, listed, start_edit, assign_edited, role_tenant,
}
use notification_platform.Users.Editing.{
  editing_user, offered_to, edit_role_options, view_user, close_view, edit_viewed, close_edit,
  type_edit, choose_edit_role, save_edit, edit_done,
}

-- The dialogs of a page whose lists stay the same; roles are chosen among the options.
pub data Step (p : UsersPage) : UsersPage → Type 0 where
  views : (u : User) → Member u p.items → Step p (view_user u p)
  closes_view : Step p (close_view p)
  edits : (u : User) → Member u p.items → Step p (start_edit u p)
  edits_viewed : (u : User) → Member u p.items → Step p (edit_viewed u p)
  closes_edit : Step p (close_edit p)
  types : (name email : String) → Step p (type_edit name email p)
  picks :
      (r : UserRole)
      → Member r (edit_role_options p)
      → (editing_user p ≢ none)
      → Step p (choose_edit_role r.id p)
  saves : Step p (save_edit p)
  ends : (returned : Bool) → Step p (edit_done returned p)

pub data Reach (is_platform : Bool) (my_tenant_id : String) (items : List User)
    (roles : List UserRole) : UsersPage → Type 0 where
  here : Reach is_platform my_tenant_id items roles (listed is_platform my_tenant_id items roles)
  next :
      {p q : UsersPage}
      → Reach is_platform my_tenant_id items roles p
      → Step p q
      → Reach is_platform my_tenant_id items roles q

-- While a user is edited, the role chosen, if any, is one that the dialog offers for that user.
abbrev IsOffered : UsersPage → Type 0
IsOffered p =
    (u : User)
    → editing_user p ≡ some u
    → (p.edit_role_id ≡ "")
      ⊎ ((r : UserRole) × Member r p.roles
          × (offered_to (some u) r ≡ true)
          × (r.id ≡ p.edit_role_id))

Step-IsOffered : {p q : UsersPage} → Step p q → IsOffered p → IsOffered q
unfolding view_user close_view start_edit edit_viewed close_edit type_edit choose_edit_role
    save_edit edit_done edit_role_options editing_user
Step-IsOffered (views u m) o = o
Step-IsOffered closes_view o = o
Step-IsOffered (edits u m) o = λ v e. inl refl
Step-IsOffered (edits_viewed u m) o = λ v e. inl refl
Step-IsOffered closes_edit o = λ v e. absurd (ground arith)
Step-IsOffered (types name email) o = o
Step-IsOffered {p} (picks r m shown) o = λ v e.
    let (k, f) = (Member-filter (offered_to (editing_user p)) p.roles r).0 m in
    inr (r, k, rw e at f, refl)
Step-IsOffered saves o = o
Step-IsOffered (ends true) o = λ v e. absurd (ground arith)
Step-IsOffered (ends false) o = o

pub Reach-IsOffered :
    {b : Bool} {t : String} {us : List User} {rs : List UserRole} {p : UsersPage}
    → Reach b t us rs p
    → IsOffered p
unfolding listed
Reach-IsOffered here = λ v e. inl refl
Reach-IsOffered (next r s) = Step-IsOffered s (Reach-IsOffered r)

-- No two roles share an id.
abbrev pub SameId : List UserRole → Type 0
SameId roles = (r s : UserRole) → Member r roles → Member s roles → r.id ≡ s.id → r ≡ s

find_role :
    (id : String) (roles : List UserRole) (r : UserRole)
    → Member r roles
    → r.id ≡ id
    → (s : UserRole) × Member s roles × (s.id ≡ id) × (find (λ x. x.id === id) roles ≡ some s)
unfolding find
find_role id [] r m e = absurd m
find_role id (x ∷ roles) r m e = elim (Bool-cases (x.id === id)) [
  | inl h ↦ (x, inl refl, (eq_iff x.id id).0 h, rw h refl)
  | inr h ↦ elim m [
    | inl q ↦ absurd (ground (arith, eq_iff x.id id, ap (λ (y : UserRole). y.id) q))
    | inr k ↦ let (s, n, i, f) = find_role id roles r k e in (s, inr n, i, rw h f)
  ]
]

-- The role and the tenant that suit a platform administrator, and another user.
abbrev pub Suits : Bool → UserRole → Option String → Type 0
Suits true r tenant_id = (r.scope ≡ "platform") × (tenant_id ≡ none)
Suits false r tenant_id = (r.scope ≡ "tenant") × (r.tenant_id ≢ "") × (tenant_id ≡ some r.tenant_id)

offered-Suits :
    (u : User) (r : UserRole)
    → offered_to (some u) r ≡ true
    → Suits u.is_platform_admin r (role_tenant (some r))
offered-Suits u r h = elim (Bool-cases u.is_platform_admin) [
  | inl e ↦
      let scope : r.scope ≡ "platform" = (eq_iff r.scope "platform").0 (ground arith) in
      rw e (scope, ground (arith, eq_iff r.scope "tenant", eq_iff "platform" "tenant", scope))
  | inr e ↦
      let is_tenant : r.scope === "tenant" ≡ true = ground arith in
      let named : truthy r.tenant_id ≡ true = ground arith in
      rw e (
        (eq_iff r.scope "tenant").0 is_tenant,
        (λ q. absurd (ground (arith, named, ap truthy q))),
        rw (is_tenant, named) refl,
      )
]

assigned :
    (id : String) (p : UsersPage) (a : Assignment)
    → assign_edited id p ≡ some a
    → (truthy p.edit_role_id ≡ true)
      × (a.user_id ≡ id)
      × (a.role_id ≡ p.edit_role_id)
      × (a.tenant_id ≡ role_tenant (find (λ r. r.id === p.edit_role_id) p.roles))
unfolding assign_edited
assigned id p a h = (ground arith, ground arith, ground arith, ground arith)

-- While the users and the roles that were loaded stay the same, in every state that the dialogs reach, what
-- is assigned to the user that is edited is a listed role: for a platform administrator a platform role
-- and no tenant, for another user a tenant role with a tenant of its own, which is the tenant assigned,
-- if no two roles share an id.
pub assign_edited-Suits :
    {b : Bool} {t : String} {us : List User} {rs : List UserRole} {p : UsersPage} (u : User)
    (a : Assignment)
    → Reach b t us rs p
    → SameId p.roles
    → editing_user p ≡ some u
    → assign_edited u.id p ≡ some a
    → (a.user_id ≡ u.id)
      × ((r : UserRole) × Member r p.roles
          × (r.id ≡ a.role_id)
          × Suits u.is_platform_admin r a.tenant_id)
assign_edited-Suits {p = p} u a reached same e sent =
    let (chosen, user, role, tenant) = assigned u.id p a sent in
    elim (Reach-IsOffered reached u e) [
      | inl empty ↦ absurd (ground (arith, chosen, ap truthy empty))
      | inr (r, m, offered, id) ↦
          let (s, n, i, f) = find_role p.edit_role_id p.roles r m id in
          let q : r ≡ s = same r s m n (id ∙ sym i) in
          (user, (s, n, i ∙ sym role, rw (tenant, f) (offered-Suits u s (rw q at offered))))
    ]
