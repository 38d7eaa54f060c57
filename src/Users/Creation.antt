-- ===== src/Users/Creation.antt =====
-- The runs of the form of UsersPage.tsx that creates a user, while the list of roles stays the same,
-- and the role that it can send.
use notification_platform.Base.{
  String, Bool, true, false, some, List, ◌≡◌, refl, ap, ◌≢◌, ◌⊎◌, inl, inr, arith, eq_iff, Member,
  Member-filter, truthy, ◌===◌, Bool-cases,
}
use notification_platform.Users.Page.{
  User, UserRole, Scope, UsersPage, listed, is_platform_scope, create_user, assign_created,
  create_done, choose_scope, choose_tenant, choose_role, type_account, is_tenant_role,
  create_role_options, create_disabled, creates_platform,
}

-- The account type and the tenant are asked of a platform administrator only, the tenant only for a
-- tenant user, and a role is chosen among the options.
pub data Step (p : UsersPage) : UsersPage → Type 0 where
  scopes : (scope : Scope) → p.is_platform ≡ true → Step p (choose_scope scope p)
  tenants : (id : String) → p.is_platform ≡ true → Step p (choose_tenant id p)
  picks : (r : UserRole) → Member r (create_role_options p) → Step p (choose_role r.id p)
  types : (email name password : String) → Step p (type_account email name password p)
  ends : (returned : Bool) → Step p (create_done returned p)

pub data Reach (is_platform : Bool) (my_tenant_id : String) (items : List User)
    (roles : List UserRole) : UsersPage → Type 0 where
  here : Reach is_platform my_tenant_id items roles (listed is_platform my_tenant_id items roles)
  next :
      {p q : UsersPage}
      → Reach is_platform my_tenant_id items roles p
      → Step p q
      → Reach is_platform my_tenant_id items roles q

-- The role chosen, if any, is one that the form offers; only a platform administrator creates
-- platform users.
abbrev IsOffered : UsersPage → Type 0
IsOffered p =
    ((p.create_role_id ≡ "")
      ⊎ ((r : UserRole) × Member r (create_role_options p) × (r.id ≡ p.create_role_id)))
    × (is_platform_scope p.create_scope ≡ true → p.is_platform ≡ true)

Step-IsOffered : {p q : UsersPage} → Step p q → IsOffered p → IsOffered q
unfolding choose_scope choose_tenant choose_role type_account create_done create_role_options
Step-IsOffered (scopes scope h) o = (inl refl, λ s. h)
Step-IsOffered (tenants id h) o = (inl refl, λ s. h)
Step-IsOffered (picks r m) o = (inr (r, m, refl), o.1)
Step-IsOffered (types email name password) o = o
Step-IsOffered (ends true) o = (inl refl, λ s. cc)
Step-IsOffered (ends false) o = o

Reach-IsOffered :
    {b : Bool} {t : String} {us : List User} {rs : List UserRole} {p : UsersPage}
    → Reach b t us rs p
    → IsOffered p
unfolding listed
Reach-IsOffered here = (inl refl, λ s. cc)
Reach-IsOffered (next r s) = Step-IsOffered s (Reach-IsOffered r)

-- What a role has to be for the user that the form creates.
abbrev pub Fits : UserRole → UsersPage → Type 0
Fits r p =
    (creates_platform p ≡ true) × (r.scope ≡ "platform")
    ⊎ (creates_platform p ≡ false)
      × (r.scope ≡ "tenant")
      × (p.is_platform ≡ true
          → (p.create_tenant_id ≢ "") × ((r.tenant_id ≡ "") ⊎ (r.tenant_id ≡ p.create_tenant_id)))

not_nil : (s : String) → truthy s ≡ true → s ≢ ""
not_nil s h e = ground (arith, ap truthy e)

is_nil : (s : String) → truthy s ≡ false → s ≡ ""
is_nil String.[] h = refl
is_nil (String.◌∷◌ c s) h = cc

-- What an enabled button requires.
enabled_needs :
    (p : UsersPage)
    → create_disabled p ≡ false
    → (truthy p.create_role_id ≡ true)
      × (p.is_platform ≡ true
          → is_platform_scope p.create_scope ≡ false
          → truthy p.create_tenant_id ≡ true)
unfolding create_disabled
enabled_needs p h = (ground arith, λ a b. ground arith)

offered_Fits :
    (p : UsersPage) (r : UserRole)
    → Member r (create_role_options p)
    → (is_platform_scope p.create_scope ≡ true → p.is_platform ≡ true)
    → (p.is_platform ≡ true
        → is_platform_scope p.create_scope ≡ false
        → truthy p.create_tenant_id ≡ true)
    → Member r p.roles × Fits r p
unfolding create_role_options
offered_Fits p r m s t = elim (Bool-cases (is_platform_scope p.create_scope)) [
  | inl e ↦
      let k = (Member-filter (λ x. x.scope === "platform") p.roles r).0 (rw e at m) in
      (k.0, inl (ground (arith, s e), (eq_iff r.scope "platform").0 k.1))
  | inr e ↦
      let k = (Member-filter (is_tenant_role p) p.roles r).0 (rw e at m) in
      (
        k.0,
        inr (
          ground arith,
          (eq_iff r.scope "tenant").0 (ground (arith, k.1)),
          (λ a. (
            not_nil p.create_tenant_id (t a e),
            elim (Bool-cases (truthy r.tenant_id)) [
              | inl g ↦ inr ((eq_iff r.tenant_id p.create_tenant_id).0 (ground (arith, k.1)))
              | inr g ↦ inl (is_nil r.tenant_id g)
            ],
          )),
        ),
      )
]

-- While the roles that were loaded stay the same, whenever the button that creates a user is enabled, the
-- form assigns a role that is in the list of roles and fits the user: a platform role for a platform
-- user, a tenant role for a tenant user, and then, for a platform administrator, a tenant is chosen and
-- the role belongs to it or to no tenant.
pub create-Fits :
    {is_platform : Bool} {my_tenant_id : String} {items : List User} {roles : List UserRole}
    {p : UsersPage} (created : String)
    → Reach is_platform my_tenant_id items roles p
    → create_disabled p ≡ false
    → (r : UserRole) × Member r p.roles
      × Fits r p
      × (assign_created created p
          ≡ some
              (record { user_id = created; role_id = r.id; tenant_id = (create_user p).tenant_id }))
      × ((create_user p).is_platform_admin ≡ creates_platform p)
unfolding create_user assign_created
create-Fits {p = p} created reached h =
    let o = Reach-IsOffered reached in
    let (chosen, needs) = enabled_needs p h in
    elim o.0 [
      | inl e ↦ absurd (not_nil p.create_role_id chosen e)
      | inr (r, m, e) ↦
          let (listed, fits) = offered_Fits p r m o.1 needs in
          (r, listed, fits, rw (chosen, e) refl, refl)
    ]
