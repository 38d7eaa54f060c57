-- ===== src/Shell/Routes.antt =====
-- notification-admin-ui/src/app/main.tsx: the route table and `PrivateRoute`. The router library
-- matches a location against the table: a path as a whole, or `/tenants/` and one more part.
use notification_platform.Base.{
  String, Bool, Option, none, some, List, [], ◌∷◌, if◌then◌else◌, truthy, text_or_nil,
}

pub data Page : Type 0 where
  login_page dashboard_page tenants_page tenant_detail_page notifications_page
        send_notification_page users_page contacts_page templates_page campaigns_page roles_page
        permissions_page api_keys_page audit_logs_page groups_page features_page channels_page
        providers_page queue_controls_page integration_page settings_page :
      Page

-- What is rendered for a location.
pub data Screen : Type 0 where
  blank_screen : Screen
  redirect : String → Screen
  bare : Page → Screen
  framed : Page → Screen

pub record Route : Type 0 where
  pub path : String
  pub page : Page

abbrev route : String → Page → Route
route path page = record { path = path; page = page }

-- The routes below `<PrivateRoute />`.
unfoldable pub private_routes : List Route
private_routes =
    route "/" dashboard_page
    ∷ route "/tenants" tenants_page
    ∷ route "/tenants/:id" tenant_detail_page
    ∷ route "/notifications" notifications_page
    ∷ route "/notifications/send" send_notification_page
    ∷ route "/users" users_page
    ∷ route "/contacts" contacts_page
    ∷ route "/templates" templates_page
    ∷ route "/campaigns" campaigns_page
    ∷ route "/roles" roles_page
    ∷ route "/permissions" permissions_page
    ∷ route "/api-keys" api_keys_page
    ∷ route "/audit-logs" audit_logs_page
    ∷ route "/groups" groups_page
    ∷ route "/features" features_page
    ∷ route "/channels" channels_page
    ∷ route "/providers" providers_page
    ∷ route "/queues" queue_controls_page
    ∷ route "/integration" integration_page
    ∷ route "/settings" settings_page
    ∷ []

-- `PrivateRoute`: without a token it redirects, with one it shows the page inside `AppLayout`.
unfoldable pub private_route : Option String → Page → Screen
private_route token page = if truthy (text_or_nil token) then framed page else redirect "/login"

-- `LoginPage` redirects a user who has a token.
unfoldable pub login_route : Option String → Screen
login_route token = if truthy (text_or_nil token) then redirect "/" else bare login_page

-- `<Routes>`, where `matches` is the router library's test of a location against a pattern.
module _ (matches : String → String → Bool) where
  unfoldable pub select_route : List Route → String → Option Page
  select_route [] location = none
  select_route (r ∷ rs) location =
      if matches r.path location then some r.page else select_route rs location

  abbrev guarded : Option String → Option Page → Screen
  guarded token none = blank_screen
  guarded token (some page) = private_route token page

  unfoldable pub app : Option String → String → Screen
  unfolding select_route
  app token location =
      if matches "/login" location
      then login_route token
      else guarded token (select_route private_routes location)
