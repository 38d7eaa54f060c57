-- ===== src/Users/Query.antt =====
-- UsersPage.tsx: the query that `load` asks for the users with. The printing of a number is a
-- parameter.
use notification_platform.Base.{
  ℕ, String, Bool, true, ◌&&◌, none, some, truthy, if◌then◌else◌, Dict, [], get, ◌≡◌, refl, arith,
  ◌===◌, Bool-cases, inl, inr,
}
use notification_platform.Widgets.Paging.{Paging}
use notification_platform.Api.Query.{set_query}
use notification_platform.Api.Query.Laws.{get-set_query}
use notification_platform.Users.Page.{Scope}

-- What the list of users is filtered by.
pub record UserList : Type 0 where
  pub is_platform : Bool
  pub user_list_scope : Scope
  pub tenant_filter : String

abbrev pub scope_text : Scope → String
scope_text Scope.platform = "platform"
scope_text Scope.tenant = "tenant"

-- Whether the tenant is sent.
abbrev pub of_one_tenant : UserList → Bool
of_one_tenant f =
    f.is_platform && (scope_text f.user_list_scope === "tenant" && truthy f.tenant_filter)

module _ (show : ℕ → String) where
  abbrev scoped : UserList → Dict String
  scoped f = if f.is_platform then set_query "scope" (scope_text f.user_list_scope) [] else []

  abbrev with_tenant : UserList → Dict String
  with_tenant f =
      if of_one_tenant f then set_query "tenant_id" f.tenant_filter (scoped f) else scoped f

  -- `userParams`
  unfoldable pub user_params : UserList → Paging → Dict String
  user_params f p =
      set_query "per_page" (show p.per_page) (set_query "page" (show p.page) (with_tenant f))

  -- The page and its size are always sent; the scope is sent by a platform administrator, and the
  -- tenant only with the scope of tenants, when one is chosen.
  pub get-user_params :
      (f : UserList) (p : Paging)
      → let q = user_params f p in
        (get "page" q ≡ some (show p.page))
        × (get "per_page" q ≡ some (show p.per_page))
        × (get "scope" q ≡ (if f.is_platform then some (scope_text f.user_list_scope) else none))
        × (get "tenant_id" q ≡ (if of_one_tenant f then some f.tenant_filter else none))
  unfolding user_params get
  get-user_params f p = elim (Bool-cases (of_one_tenant f)) [
    | inl e ↦
        let d : f.is_platform ≡ true = ground arith in
        rw (e, d) (simp (get-set_query) (refl, refl, refl, refl))
    | inr e ↦ elim (Bool-cases f.is_platform) [
      | inl d ↦ rw (e, d) (simp (get-set_query) (refl, refl, refl, refl))
      | inr d ↦ rw (e, d) (simp (get-set_query) (refl, refl, refl, refl))
    ]
  ]
