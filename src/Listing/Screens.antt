-- ===== src/Listing/Screens.antt =====
-- The parameters that each page's `load` gives to `listPage` of api/client.ts, in the files below
-- notification-admin-ui/src/pages. The pages of users, roles and a tenant's providers, which
-- compose their queries in other ways, are not among them.
use notification_platform.Base.{
  ℕ, String, none, some, ◌≡◌, ◌≢◌, refl, text_or_nil, Dict, [], ◌∷◌, get,
}
use notification_platform.Widgets.Paging.{Paging}
use notification_platform.Api.Query.{Param, text, number, apply_params}
use notification_platform.Api.Query.Laws.{
  or_else, param_text, get-apply_params, get-apply_params-ne-nil,
}

-- `page, per_page: perPage`
abbrev paged : Paging → Dict Param
paged p = ("page", number p.page) ∷ ("per_page", number p.per_page) ∷ []

-- `tenant_id: tenantFilter, q: search, page, per_page: perPage`
abbrev of_tenant : String → String → Paging → Dict Param
of_tenant tenant search p = ("tenant_id", text tenant) ∷ ("q", text search) ∷ paged p

abbrev pub tenants_params : String → String → Paging → Dict Param
tenants_params search status p = ("q", text search) ∷ ("filter_status", text status) ∷ paged p

abbrev pub groups_params : String → String → Paging → Dict Param
groups_params tenant search p = of_tenant tenant search p

abbrev pub contacts_params : String → String → Paging → Dict Param
contacts_params tenant search p = of_tenant tenant search p

abbrev pub campaigns_params : String → String → Paging → Dict Param
campaigns_params tenant search p = of_tenant tenant search p

abbrev pub api_keys_params : String → String → Paging → Dict Param
api_keys_params tenant search p = of_tenant tenant search p

abbrev pub audit_logs_params : String → String → Paging → Dict Param
audit_logs_params tenant search p = of_tenant tenant search p

abbrev pub queue_controls_params : String → String → String → String → Paging → Dict Param
queue_controls_params tenant search channel status p =
    ("tenant_id", text tenant)
    ∷ ("q", text search)
    ∷ ("filter_channel", text channel)
    ∷ ("filter_status", text status)
    ∷ paged p

abbrev pub channels_params : String → String → Paging → Dict Param
channels_params search status p = ("q", text search) ∷ ("filter_enabled", text status) ∷ paged p

abbrev pub features_params : String → String → Paging → Dict Param
features_params search category p =
    ("q", text search) ∷ ("filter_category", text category) ∷ paged p

abbrev pub provider_types_params : String → String → String → Paging → Dict Param
provider_types_params search channel status p =
    ("q", text search)
    ∷ ("filter_channel", text channel)
    ∷ ("filter_enabled", text status)
    ∷ paged p

abbrev pub templates_params : String → String → String → Paging → Dict Param
templates_params tenant search channel p =
    ("tenant_id", text tenant) ∷ ("q", text search) ∷ ("filter_channel", text channel) ∷ paged p

abbrev pub notifications_params : String → String → String → Paging → Dict Param
notifications_params search status channel p =
    ("page", number p.page)
    ∷ ("per_page", number p.per_page)
    ∷ ("search", text search)
    ∷ ("status", text status)
    ∷ ("channel", text channel)
    ∷ []

abbrev pub permissions_params : Paging → Dict Param
permissions_params p = paged p

-- A page with the texts of its filters.
pub data Screen : Type 0 where
  tenants groups contacts campaigns api_keys audit_logs channels features : String → String → Screen
  provider_types templates notifications : String → String → String → Screen
  queue_controls : String → String → String → String → Screen
  permissions : Screen

unfoldable pub screen_params : Screen → Paging → Dict Param
screen_params (tenants search status) p = tenants_params search status p
screen_params (groups tenant search) p = groups_params tenant search p
screen_params (contacts tenant search) p = contacts_params tenant search p
screen_params (campaigns tenant search) p = campaigns_params tenant search p
screen_params (api_keys tenant search) p = api_keys_params tenant search p
screen_params (audit_logs tenant search) p = audit_logs_params tenant search p
screen_params (channels search status) p = channels_params search status p
screen_params (features search category) p = features_params search category p
screen_params (provider_types search channel status) p =
    provider_types_params search channel status p
screen_params (templates tenant search channel) p = templates_params tenant search channel p
screen_params (notifications search status channel) p = notifications_params search status channel p
screen_params (queue_controls tenant search channel status) p =
    queue_controls_params tenant search channel status p
screen_params permissions p = permissions_params p

-- What a server reads of a query for a screen of this kind, an absent key being the empty text.
abbrev field : String → Dict String → String
field key query = text_or_nil (get key query)

abbrev pub read_screen : Screen → Dict String → Screen
read_screen (tenants _ _) q = tenants (field "q" q) (field "filter_status" q)
read_screen (groups _ _) q = groups (field "tenant_id" q) (field "q" q)
read_screen (contacts _ _) q = contacts (field "tenant_id" q) (field "q" q)
read_screen (campaigns _ _) q = campaigns (field "tenant_id" q) (field "q" q)
read_screen (api_keys _ _) q = api_keys (field "tenant_id" q) (field "q" q)
read_screen (audit_logs _ _) q = audit_logs (field "tenant_id" q) (field "q" q)
read_screen (channels _ _) q = channels (field "q" q) (field "filter_enabled" q)
read_screen (features _ _) q = features (field "q" q) (field "filter_category" q)
read_screen (provider_types _ _ _) q =
    provider_types (field "q" q) (field "filter_channel" q) (field "filter_enabled" q)
read_screen (templates _ _ _) q =
    templates (field "tenant_id" q) (field "q" q) (field "filter_channel" q)
read_screen (notifications _ _ _) q =
    notifications (field "search" q) (field "status" q) (field "channel" q)
read_screen (queue_controls _ _ _ _) q =
    queue_controls (field "tenant_id" q) (field "q" q) (field "filter_channel" q)
      (field "filter_status" q)
read_screen permissions q = permissions

module _ (show : ℕ → String) where
  sent_text : (s : String) → text_or_nil (or_else (param_text show (text s)) none) ≡ s
  sent_text String.[] = refl
  sent_text (String.◌∷◌ c s) = refl

  ruleset sent = (get-apply_params, sent_text)

  filters_read :
      (s : Screen) (p : Paging)
      → let query = apply_params show (screen_params s p) [] in
        (read_screen s query ≡ s)
        × (get "page" query ≡ some (show p.page))
        × (get "per_page" query ≡ some (show p.per_page))
  unfolding screen_params get
  filters_read (tenants a b) p = simp sent (refl, refl, refl)
  filters_read (groups a b) p = simp sent (refl, refl, refl)
  filters_read (contacts a b) p = simp sent (refl, refl, refl)
  filters_read (campaigns a b) p = simp sent (refl, refl, refl)
  filters_read (api_keys a b) p = simp sent (refl, refl, refl)
  filters_read (audit_logs a b) p = simp sent (refl, refl, refl)
  filters_read (channels a b) p = simp sent (refl, refl, refl)
  filters_read (features a b) p = simp sent (refl, refl, refl)
  filters_read (provider_types a b c) p = simp sent (refl, refl, refl)
  filters_read (templates a b c) p = simp sent (refl, refl, refl)
  filters_read (notifications a b c) p = simp sent (refl, refl, refl)
  filters_read (queue_controls a b c d) p = simp sent (refl, refl, refl)
  filters_read permissions p = simp sent (refl, refl, refl)

  no_empty_text : (key : String) → get {V = String} key [] ≢ some ""
  unfolding get
  no_empty_text key = λ e. cc

  -- Each page's request has the page and the page size, and its filters can be read back from the
  -- query: a filter is sent as it is, under a key of its own, and no empty one is sent, where numbers
  -- are not printed as the empty text.
  pub read_screen-params :
      (s : Screen) (p : Paging)
      → ((n : ℕ) → show n ≢ "")
      → let query = apply_params show (screen_params s p) [] in
        (read_screen s query ≡ s)
        × (get "page" query ≡ some (show p.page))
        × (get "per_page" query ≡ some (show p.per_page))
        × ((key : String) → get key query ≢ some "")
  read_screen-params s p shown =
      let (same, page, per_page) = filters_read s p in
      (
        same,
        page,
        per_page,
        λ key. get-apply_params-ne-nil show shown key (screen_params s p) [] (no_empty_text key),
      )
