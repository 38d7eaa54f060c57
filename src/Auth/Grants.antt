-- ===== src/Auth/Grants.antt =====
-- What `hasPermission` of AuthContext.tsx grants.
use notification_platform.Base.{
  String, true, false, Option, none, some, List, ◌≡◌, refl, ◌↔◌, inl, inr, arith, get, contains,
  contains-Member, Member, distinct_keys, Member-of_get, get_of_Member, Option-cases, Bool-cases,
}
use notification_platform.Auth.Permissions.{Principal, granular_to_broad, has_broad, has_permission}

-- The three ways to hold a permission.
pub data Grants (user : Principal) (permission : String) : Type 0 where
  as_admin : user.is_platform_admin ≡ true → Grants user permission
  direct : Member permission user.permissions → Grants user permission
  through :
      (broad : String)
      → Member (permission, broad) granular_to_broad
      → Member broad user.permissions
      → Grants user permission

granular-distinct : distinct_keys granular_to_broad ≡ true
unfolding granular_to_broad
granular-distinct = refl

has_broad_sound :
    (user : Principal) (permission : String)
    → has_broad user.permissions (get permission granular_to_broad) ≡ true
    → Grants user permission
unfolding has_broad
has_broad_sound user permission h = elim (Option-cases (get permission granular_to_broad)) [
  | inl e ↦ absurd (ground arith)
  | inr (broad, e) ↦
      through broad (Member-of_get permission broad granular_to_broad e)
        ((contains-Member user.permissions broad).0 (rw (e, has_broad) at h))
]

Grants-sound :
    (user : Principal) (permission : String)
    → has_permission (some user) permission ≡ true
    → Grants user permission
unfolding has_permission
Grants-sound user permission h = elim (Bool-cases user.is_platform_admin) [
  | inl e ↦ as_admin e
  | inr e ↦ elim (Bool-cases (contains user.permissions permission)) [
    | inl e' ↦ direct ((contains-Member user.permissions permission).0 e')
    | inr e' ↦ has_broad_sound user permission (ground arith)
  ]
]

Grants-complete :
    (user : Principal) (permission : String)
    → Grants user permission
    → has_permission (some user) permission ≡ true
unfolding has_permission has_broad
Grants-complete user permission (as_admin h) = ground arith
Grants-complete user permission (direct h) =
    ground (arith, contains-Member user.permissions permission)
Grants-complete user permission (through broad m h) = ground (
  arith,
  contains-Member user.permissions broad,
  get_of_Member permission broad granular_to_broad granular-distinct m,
)

-- `can` answers true exactly for a signed-in user who is a platform administrator, or holds the
-- permission itself, or holds the broad permission that the table gives for it.
pub has_permission_iff :
    (user : Option Principal) (permission : String)
    → (has_permission user permission ≡ true)
      ↔ ((u : Principal) × (user ≡ some u) × Grants u permission)
unfolding has_permission
has_permission_iff none permission = ((λ h. cc), (λ h. cc (h.1)))
has_permission_iff (some user) permission = (
  (λ h. (user, refl, Grants-sound user permission h)),
  (λ h. let e : user ≡ h.0 = cc (h.1) in rw e (Grants-complete h.0 permission h.2)),
)

-- Every permission of the first list is in the second.
abbrev pub Included : List String → List String → Type 0
Included xs ys = (s : String) → Member s xs → Member s ys

Grants-mono :
    (u v : Principal) (permission : String)
    → (u.is_platform_admin ≡ true → v.is_platform_admin ≡ true)
    → Included u.permissions v.permissions
    → Grants u permission
    → Grants v permission
Grants-mono u v permission a sub (as_admin h) = as_admin (a h)
Grants-mono u v permission a sub (direct h) = direct (sub permission h)
Grants-mono u v permission a sub (through broad m h) = through broad m (sub broad h)

-- A user who is given more permissions, and stays an administrator if they were one, loses no
-- access.
pub has_permission_mono :
    (u v : Principal) (permission : String)
    → (u.is_platform_admin ≡ true → v.is_platform_admin ≡ true)
    → Included u.permissions v.permissions
    → has_permission (some u) permission ≡ true
    → has_permission (some v) permission ≡ true
has_permission_mono u v permission a sub h =
    Grants-complete v permission (Grants-mono u v permission a sub (Grants-sound u permission h))

-- The table is read once: a user who is no administrator, lists neither `integration.view` nor
-- `api_keys.view`, and lists `api_keys.manage`, is granted `api_keys.view` and is refused
-- `integration.view`, although the table leads from `integration.view` to `api_keys.view`.
pub integration_view_refused :
    (u : Principal)
    → u.is_platform_admin ≡ false
    → ¬ Member "integration.view" u.permissions
    → ¬ Member "api_keys.view" u.permissions
    → Member "api_keys.manage" u.permissions
    → (has_permission (some u) "api_keys.view" ≡ true)
      × (has_permission (some u) "integration.view" ≡ false)
unfolding has_permission has_broad granular_to_broad get
integration_view_refused u a p q h = ground (
  arith,
  contains-Member u.permissions "api_keys.manage",
  contains-Member u.permissions "api_keys.view",
  contains-Member u.permissions "integration.view",
)
