-- ===== src/Settings/Page.antt =====
-- SettingsPage.tsx: the state of the page and its handlers. Toasts are left out; `J` is the type of
-- JSON values; whether one is falsy, its printer and the parser are parameters.
use notification_platform.Base.{
  String, Bool, true, false, Option, none, some, List, [], ◌∷◌, truthy, text_or_nil, blank,
  if◌then◌else◌,
}

pub record TenantOption : Type 0 where
  pub id : String
  pub name : String
  pub slug : String

pub record SettingsPage : Type 0 where
  pub tenants : List TenantOption
  pub selected_tenant_id : String
  pub timezone : String
  pub country : String
  pub default_sender : String
  pub default_sms : String
  pub branding_logo : String
  pub metadata : String
  pub loading : Bool
  pub saving : Bool
  pub error : String

-- The state at first, for a user of `my_tenant_id`.
unfoldable pub initial : Bool → String → SettingsPage
initial is_platform my_tenant_id = record {
  tenants = [];
  selected_tenant_id = if is_platform then "" else my_tenant_id;
  timezone = "";
  country = "";
  default_sender = "";
  default_sms = "";
  branding_logo = "";
  metadata = "";
  loading = true;
  saving = false;
  error = "";
}

abbrev first_selected : String → List TenantOption → String
first_selected (String.◌∷◌ c s) tenants = String.◌∷◌ c s
first_selected String.[] [] = ""
first_selected String.[] (t ∷ ts) = t.id

-- The reply of the list of tenants.
unfoldable pub tenants_loaded : List TenantOption → SettingsPage → SettingsPage
tenants_loaded reply p = record p {
  tenants = reply;
  selected_tenant_id = first_selected p.selected_tenant_id reply;
}

-- The choice of a tenant, and the effect that follows it: the tenant whose settings are asked for.
unfoldable pub select : String → SettingsPage → SettingsPage
select id p = record p { selected_tenant_id = id }

unfoldable pub load : SettingsPage → Option String × SettingsPage
load p =
    if truthy p.selected_tenant_id
    then (some p.selected_tenant_id, record p { loading = true })
    else (none, record p { loading = false })

-- The settings of a tenant; a key that is null or absent is `none`.
pub record Settings (J : Type 0) : Type 0 where
  pub timezone : Option String
  pub country : Option String
  pub default_sender : Option String
  pub default_sms : Option String
  pub branding_logo : Option String
  pub metadata : Option J

pub record SaveRequest (J : Type 0) : Type 0 where
  pub tenant_id : String
  pub body : Settings J

-- `s || null`
abbrev pub text_or_null : String → Option String
text_or_null String.[] = none
text_or_null (String.◌∷◌ c s) = some (String.◌∷◌ c s)

module _ {J : Type 0} (falsy : J → Bool) (print : J → String) where
  abbrev printed : Option J → String
  printed none = ""
  printed (some v) = if falsy v then "" else print v

  -- The ends of `load`.
  unfoldable pub loaded : Settings J → SettingsPage → SettingsPage
  loaded d p = record p {
    timezone = text_or_nil d.timezone;
    country = text_or_nil d.country;
    default_sender = text_or_nil d.default_sender;
    default_sms = text_or_nil d.default_sms;
    branding_logo = text_or_nil d.branding_logo;
    metadata = printed d.metadata;
    loading = false;
  }

unfoldable pub load_failed : SettingsPage → SettingsPage
load_failed p = record p { loading = false }

module _ {J : Type 0} (parse : String → Option J) where
  -- The body that `submit` composes: `none` if the metadata are no JSON.
  unfoldable pub body_of : SettingsPage → Option (Settings J)
  body_of p =
      let body : Settings J = record {
        timezone = text_or_null p.timezone;
        country = text_or_null p.country;
        default_sender = text_or_null p.default_sender;
        default_sms = text_or_null p.default_sms;
        branding_logo = text_or_null p.branding_logo;
        metadata = none;
      } in
      if blank p.metadata then some body else elim (parse p.metadata) [
        | none ↦ none
        | some v ↦ some (record body { metadata = some v })
      ]

  -- What `submit` does with the body.
  abbrev pub sent : SettingsPage → Option (Settings J) → Option (SaveRequest J) × SettingsPage
  sent p none = (none, record p { saving = false; error = "Invalid JSON in metadata" })
  sent p (some body) = (
    some (record { tenant_id = p.selected_tenant_id; body = body }),
    record p { saving = true; error = "" },
  )

  -- `submit` up to its `await`.
  unfoldable pub submit : SettingsPage → Option (SaveRequest J) × SettingsPage
  unfolding body_of
  submit p = if truthy p.selected_tenant_id then sent p (body_of p) else (none, p)

-- The end of `submit`, whether the request returned or threw.
unfoldable pub submitted : SettingsPage → SettingsPage
submitted p = record p { saving = false }
