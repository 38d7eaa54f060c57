-- ===== src/Auth/Tests.antt =====
-- Sample principals, and the theorems on permissions at them.
use notification_platform.Base.{
  String, true, false, none, some, [], ◌∷◌, ◌≡◌, sym, ◌↔◌, ◌≢◌, inl, inr, Member,
}
use notification_platform.Auth.Permissions.{Principal, has_permission}
use notification_platform.Auth.Grants.{Grants, has_permission_iff}

abbrev pub operator : Principal
operator = record {
  user_id = "u1";
  tenant_id = some "t1";
  email = "ops@acme.test";
  is_platform_admin = false;
  permissions = "api_keys.manage" ∷ "notifications.send" ∷ [];
}

abbrev pub admin : Principal
admin = record operator { is_platform_admin = true; tenant_id = none }

has_permission_iff_example :
    (has_permission (some operator) "api_keys.view" ≡ true)
    ↔ ((u : Principal) × (some operator ≡ some u) × Grants u "api_keys.view")
has_permission_iff_example = has_permission_iff (some operator) "api_keys.view"

not_listed :
    (s : String)
    → s ≢ "api_keys.manage"
    → s ≢ "notifications.send"
    → ¬ Member s operator.permissions
not_listed s p q (inl e) = p (sym e)
not_listed s p q (inr (inl e)) = q (sym e)
not_listed s p q (inr (inr h)) = h
