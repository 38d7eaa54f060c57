-- ===== src/Shell/Nav.antt =====
-- notification-admin-ui/src/layouts/AppLayout.tsx: the side bar. Icons and classes are left out.
use notification_platform.Base.{
  String, Bool, true, false, Option, none, some, List, [], ◌∷◌, map, filter, text_or_nil, or_text,
}
use notification_platform.Auth.Permissions.{Principal, has_permission}

pub record NavItem : Type 0 where
  pub to : String
  pub label : String
  pub permission : String

pub record NavGroup : Type 0 where
  pub section : String
  pub items : List NavItem

abbrev item : String → String → String → NavItem
item to label permission = record { to = to; label = label; permission = permission }

abbrev group : String → List NavItem → NavGroup
group section items = record { section = section; items = items }

unfoldable pub platform_nav : List NavGroup
platform_nav =
    (group "Platform" (
      item "/" "Dashboard" "notifications.view"
      ∷ item "/tenants" "Tenants" "tenants.view"
      ∷ item "/features" "Features" "features.view"
      ∷ item "/channels" "Channels" "channels.view"
      ∷ item "/providers" "Providers" "providers.view"
      ∷ []))
    ∷ (group "Data" (
        item "/notifications" "Notification Logs" "notifications.view"
        ∷ item "/notifications/send" "Send" "notifications.send"
        ∷ item "/contacts" "Contacts" "contacts.view"
        ∷ item "/groups" "Groups" "groups.view"
        ∷ item "/templates" "Templates" "templates.view"
        ∷ item "/campaigns" "Campaigns" "campaigns.view"
        ∷ []))
    ∷ (group "Security" (
        item "/users" "Users" "users.view"
        ∷ item "/roles" "Roles" "roles.manage"
        ∷ item "/permissions" "Permissions" "users.view"
        ∷ item "/api-keys" "API Keys" "api_keys.view"
        ∷ item "/audit-logs" "Audit" "audit_logs.view"
        ∷ []))
    ∷ (group "System" (
        item "/queues" "Queues" "queue_controls.view"
        ∷ item "/settings" "Settings" "settings.view"
        ∷ []))
    ∷ []

unfoldable pub tenant_nav : List NavGroup
tenant_nav =
    (group "Overview" (item "/" "Dashboard" "notifications.view" ∷ []))
    ∷ (group "Notifications" (
        item "/notifications" "Logs" "notifications.view"
        ∷ item "/notifications/send" "Send" "notifications.send"
        ∷ []))
    ∷ (group "Address Book"
        (item "/contacts" "Contacts" "contacts.view" ∷ item "/groups" "Groups" "groups.view" ∷ []))
    ∷ (group "Content" (
        item "/templates" "Templates" "templates.view"
        ∷ item "/campaigns" "Campaigns" "campaigns.view"
        ∷ []))
    ∷ (group "Access" (
        item "/api-keys" "API Keys" "api_keys.view"
        ∷ item "/integration" "Integration" "integration.view"
        ∷ item "/audit-logs" "Audit" "audit_logs.view"
        ∷ []))
    ∷ (group "Configuration" (
        item "/providers" "Providers" "providers.view"
        ∷ item "/queues" "Queues" "queue_controls.view"
        ∷ item "/settings" "Settings" "settings.view"
        ∷ []))
    ∷ []

abbrev is_platform : Option Principal → Bool
is_platform none = false
is_platform (some user) = user.is_platform_admin

abbrev pick_nav : Bool → List NavGroup
pick_nav true = platform_nav
pick_nav false = tenant_nav

-- `user?.is_platform_admin ? platformNav : tenantNav`
unfoldable pub nav_of : Option Principal → List NavGroup
nav_of user = pick_nav (is_platform user)

abbrev pub permitted_items : Option Principal → NavGroup → NavGroup
permitted_items user g = record g { items = filter (λ i. has_permission user i.permission) g.items }

-- What the side bar of `AppLayout` shows.
unfoldable pub sidebar : Option Principal → List NavGroup
unfolding nav_of
sidebar user = map (permitted_items user) (nav_of user)

abbrev tenant_of : Option Principal → Option String
tenant_of none = none
tenant_of (some user) = user.tenant_id

-- The second line of the header.
unfoldable pub header_tenant : Option Principal → String
header_tenant user = or_text (text_or_nil (tenant_of user)) "all tenants"
