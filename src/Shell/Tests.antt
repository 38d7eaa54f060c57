-- ===== src/Shell/Tests.antt =====
-- The route table and the side bar at sample locations, with a router that compares whole texts.
use notification_platform.Base.{
  String, true, some, List, [], ◌∷◌, ◌≡◌, refl, inl, inr, Member, Member-map, Member-filter, All,
  ◌===◌,
}
use notification_platform.Auth.Permissions.{has_permission}
use notification_platform.Auth.Tests.{operator}
use notification_platform.Shell.Routes.{Page, framed, app}
use notification_platform.Shell.Nav.{
  NavItem, NavGroup, nav_of, sidebar, tenant_nav, permitted_items,
}
use notification_platform.Shell.Guards.{RouterIsExact, patterns, sidebar_opens}

exact_router : RouterIsExact ◌===◌
exact_router l h = every_pattern patterns
  where
    every_pattern : (ps : List String) → All (λ p. (p === l) ≡ (p === l)) ps
    every_pattern [] = tt
    every_pattern (p ∷ ps) = (refl, every_pattern ps)

abbrev send_item : NavItem
send_item = record { to = "/notifications/send"; label = "Send"; permission = "notifications.send" }

abbrev logs_item : NavItem
logs_item = record { to = "/notifications"; label = "Logs"; permission = "notifications.view" }

abbrev send_group : NavGroup
send_group = record { section = "Notifications"; items = logs_item ∷ send_item ∷ [] }

send_group_listed : Member send_group (nav_of (some operator))
unfolding nav_of tenant_nav
send_group_listed = inr (inl refl)

may_send : has_permission (some operator) "notifications.send" ≡ true
unfolding has_permission
may_send = refl

shown_group_listed : Member (permitted_items (some operator) send_group) (sidebar (some operator))
unfolding sidebar
shown_group_listed =
    Member-map (permitted_items (some operator)) (nav_of (some operator)) send_group
      send_group_listed

abbrev shown : NavGroup
shown = permitted_items (some operator) send_group

send_shown : Member send_item shown.items
send_shown =
    (Member-filter (λ i. has_permission (some operator) i.permission) send_group.items send_item).1
      (inr (inl refl), may_send)

sidebar_opens_example :
    (has_permission (some operator) "notifications.send" ≡ true)
    × (page : Page) × (app ◌===◌ (some "t") "/notifications/send" ≡ framed page)
sidebar_opens_example =
    sidebar_opens ◌===◌ exact_router (some "t") (some operator) shown send_item refl
      shown_group_listed send_shown
