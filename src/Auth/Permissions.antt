-- ===== src/Auth/Permissions.antt =====
-- notification-admin-ui/src/auth/AuthContext.tsx: the permission table and `hasPermission`;
-- notification-admin-ui/src/types/api.ts: `Principal`.
use notification_platform.Base.{
  String, Bool, false, Option, none, some, List, [], ◌∷◌, ◌||◌, Dict, get, contains,
}

-- `permissions` of an undefined list is [].
pub record Principal : Type 0 where
  pub user_id : String
  pub tenant_id : Option String
  pub email : String
  pub is_platform_admin : Bool
  pub permissions : List String

-- `GRANULAR_TO_BROAD`
unfoldable pub granular_to_broad : Dict String
granular_to_broad =
    ("users.view", "users.manage")
    ∷ ("users.create", "users.manage")
    ∷ ("users.update", "users.manage")
    ∷ ("users.delete", "users.manage")
    ∷ ("users.reset_password", "users.manage")
    ∷ ("users.assign_roles", "users.manage")
    ∷ ("users.assign_permissions", "users.manage")
    ∷ ("features.view", "features.manage")
    ∷ ("features.update", "features.manage")
    ∷ ("channels.view", "channels.manage")
    ∷ ("channels.update", "channels.manage")
    ∷ ("queue_controls.view", "channels.manage")
    ∷ ("queue_controls.update", "channels.manage")
    ∷ ("providers.view", "providers.manage")
    ∷ ("providers.create", "providers.manage")
    ∷ ("providers.update", "providers.manage")
    ∷ ("providers.delete", "providers.manage")
    ∷ ("providers.test", "providers.manage")
    ∷ ("groups.view", "groups.manage")
    ∷ ("groups.create", "groups.manage")
    ∷ ("groups.update", "groups.manage")
    ∷ ("groups.delete", "groups.manage")
    ∷ ("groups.members.manage", "groups.manage")
    ∷ ("settings.view", "settings.manage")
    ∷ ("settings.update", "settings.manage")
    ∷ ("api_keys.view", "api_keys.manage")
    ∷ ("api_keys.create", "api_keys.manage")
    ∷ ("api_keys.revoke", "api_keys.manage")
    ∷ ("integration.view", "api_keys.view")
    ∷ ("integration.test", "notifications.send")
    ∷ ("integration.view_api_docs", "integration.view")
    ∷ ("campaigns.view", "campaigns.manage")
    ∷ ("campaigns.create", "campaigns.manage")
    ∷ ("campaigns.update", "campaigns.manage")
    ∷ ("campaigns.approve", "campaigns.manage")
    ∷ ("campaigns.send", "campaigns.manage")
    ∷ ("campaigns.schedule", "campaigns.manage")
    ∷ ("campaigns.cancel", "campaigns.manage")
    ∷ ("templates.view", "templates.manage")
    ∷ ("templates.create", "templates.manage")
    ∷ ("templates.update", "templates.manage")
    ∷ ("templates.delete", "templates.manage")
    ∷ ("contacts.view", "contacts.manage")
    ∷ ("contacts.create", "contacts.manage")
    ∷ ("contacts.update", "contacts.manage")
    ∷ ("contacts.delete", "contacts.manage")
    ∷ ("notifications.view", "notifications.manage")
    ∷ ("notifications.create", "notifications.manage")
    ∷ ("notifications.send", "notifications.manage")
    ∷ ("notifications.bulk_send", "notifications.manage")
    ∷ ("notifications.retry", "notifications.manage")
    ∷ ("notifications.cancel", "notifications.manage")
    ∷ ("tenants.view", "tenants.manage")
    ∷ ("tenants.create", "tenants.manage")
    ∷ ("tenants.update", "tenants.manage")
    ∷ ("tenants.delete", "tenants.manage")
    ∷ ("audit_logs.view", "audit_logs.manage")
    ∷ []

-- `broad && user.permissions?.includes(broad)`
unfoldable pub has_broad : List String → Option String → Bool
unfolding contains
has_broad held none = false
has_broad held (some broad) = contains held broad

-- `hasPermission`, the context's `can`
unfoldable pub has_permission : Option Principal → String → Bool
unfolding has_broad
has_permission none permission = false
has_permission (some user) permission =
    user.is_platform_admin
    || contains user.permissions permission
    || has_broad user.permissions (get permission granular_to_broad)
