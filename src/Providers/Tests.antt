-- ===== src/Providers/Tests.antt =====
-- A form for the Resend provider, and the theorems on it.
use notification_platform.Base.{
  filter, trim, String, true, false, none, some, [], ◌∷◌, ◌≡◌, ◌≢◌, refl, inl, arith, eq_iff, Dict,
  get, Member, truthy, if◌then◌else◌,
}
use notification_platform.Providers.Schemas.{
  password, text as plain_text, ProviderConfigField, ProviderConfigSchema, default_provider_schemas,
}
use notification_platform.Providers.Config.{
  Setting, setting_of, entered, provider_config_from_form, missing_required_provider_fields,
}
use notification_platform.Providers.Config.Laws.{has_field, get-provider_config_from_form}
use notification_platform.Providers.Page.{
  ProviderTypeItem, Page, initial, create_config, save_tenant_provider,
}
use notification_platform.Providers.Page.Laws.{save_iff, IsSavable, save_complete}

abbrev api_key : ProviderConfigField
api_key = record {
  key = "api_key";
  label = "API key";
  type = password;
  required = true;
  sensitive = true;
  options = [];
}

abbrev from_address : ProviderConfigField
from_address = record {
  key = "from";
  label = "From address";
  type = plain_text;
  required = true;
  sensitive = false;
  options = [];
}

abbrev resend : ProviderConfigSchema
resend = record { title = "Resend"; fields = api_key ∷ from_address ∷ [] }

resend_listed : get "resend" default_provider_schemas ≡ some resend
unfolding get default_provider_schemas
resend_listed = refl

abbrev resend_values : Dict String
resend_values = ("api_key", " re_1 ") ∷ ("from", "a@acme.test") ∷ []

get-provider_config_from_form_example :
    ((f : ProviderConfigField)
      → Member f resend.fields
      → get f.key (provider_config_from_form "resend" resend_values []) ≡ (
          if truthy (entered resend_values f)
          then some (setting_of f.type (entered resend_values f))
          else none))
    × ((k : String)
        → has_field k resend.fields ≡ false
        → get k (provider_config_from_form "resend" resend_values []) ≡ none)
get-provider_config_from_form_example =
    get-provider_config_from_form "resend" resend resend_values [] resend_listed

abbrev adding : Page
adding = record initial {
  form = record { channel = "email"; provider = "resend"; status = "active"; is_default = true };
  config_values = resend_values;
  show_form = true;
}

none_missing : missing_required_provider_fields "resend" resend_values ≡ []
unfolding missing_required_provider_fields get default_provider_schemas filter trim
none_missing = refl

adding-IsSavable : IsSavable adding
adding-IsSavable =
    (ground (arith, eq_iff "email" ""), ground (arith, eq_iff "resend" ""), λ e. none_missing)

new_one : adding.editing ≡ none
unfolding initial
new_one = refl

adding_is_sent : (save_tenant_provider adding).0 ≢ none
adding_is_sent h = let sent = (save_iff adding).0 adding-IsSavable in cc

save_complete_example :
    (config : Dict Setting) × ((save_tenant_provider adding).0
      ≡ some (create_config adding.form (some config)))
    × (get "api_key" config ≡ some (setting_of password (entered resend_values api_key)))
    × (truthy (entered resend_values api_key) ≡ true)
save_complete_example =
    save_complete adding resend api_key adding_is_sent new_one resend_listed (inl refl) refl

abbrev mail_type : ProviderTypeItem
mail_type = record {
  provider = "smtp";
  channel = "email";
  description = "SMTP";
  tenant_count = 2;
  enabled = true;
}
