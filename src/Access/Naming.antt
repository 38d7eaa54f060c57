-- ===== src/Access/Naming.antt =====
-- The name of a key that ApiKeysPage.tsx fills in, and the key that it shows once.
use notification_platform.Base.{
  String, true, false, some, List, [], ◌∷◌, find, truthy, ◌===◌, ◌≡◌, refl, arith, eq_iff,
}
use notification_platform.Access.Page.{
  KeyTenant, ApiKeysPage, default_name, is_default, choose_tenant, type_name,
}

-- The default name of a tenant that was found in the list is the default one of a tenant of it.
found-is_default :
    (value : String) (ts : List KeyTenant) (t : KeyTenant)
    → find (λ x. x.id === value) ts ≡ some t
    → is_default ts (default_name t) ≡ true
unfolding find is_default
found-is_default value [] t h = cc
found-is_default value (x ∷ xs) t h =
    ground (arith, eq_iff (default_name t) (default_name x), found-is_default value xs t)

-- While the name is empty or was filled in, choosing tenants one after another leaves the default
-- name of the last; a name that the user has typed, which is no tenant's default, stays.
pub choose_tenant-names :
    (a b : String) (s t : KeyTenant) (typed : String) (p : ApiKeysPage)
    → find (λ x. x.id === a) p.tenants ≡ some s
    → find (λ x. x.id === b) p.tenants ≡ some t
    → truthy typed ≡ true
    → is_default p.tenants typed ≡ false
    → let q = choose_tenant a (type_name "" p) in
      let r = choose_tenant b q in
      (q.name ≡ default_name s)
      × (r.name ≡ default_name t)
      × (r.tenant_id ≡ b)
      × ((choose_tenant b (type_name typed q)).name ≡ typed)
unfolding choose_tenant type_name
choose_tenant-names a b s t typed p f g h n =
    let d = found-is_default a p.tenants s f in rw (f, g, d, n, h) (refl, ground arith, refl, refl)
