-- ===== src/Providers/Config.antt =====
-- ProvidersPage.tsx: `providerConfigFromForm`, `missingRequiredProviderFields`, `providerLabel` and the
-- choices of `ProviderSelect`.
pub mod Laws
use notification_platform.Base.{
  String, Bool, true, false, not, ◌&&◌, Option, none, some, List, [], ◌∷◌, map, filter, Dict, get,
  set, blank, trim, truthy, text_or_nil, if◌then◌else◌,
}
use notification_platform.Providers.Schemas.{
  FieldType, number, ProviderConfigField, ProviderConfigSchema, default_provider_schemas,
  providers_by_channel,
}

pub record CustomRow : Type 0 where
  pub key : String
  pub value : String

-- A setting sent as text, or as the number that `Number` reads in the text.
pub data Setting : Type 0 where
  words : String → Setting
  numeric : String → Setting

abbrev pub setting_of : FieldType → String → Setting
setting_of number value = numeric value
setting_of type value = words value

-- `values[field.key]?.trim()`
abbrev pub entered : Dict String → ProviderConfigField → String
entered values f = trim (text_or_nil (get f.key values))

-- The loop over a schema's fields.
unfoldable pub fill_fields : List ProviderConfigField → Dict String → Dict Setting → Dict Setting
fill_fields [] values out = out
fill_fields (f ∷ fs) values out = fill_fields fs values (
    if truthy (entered values f) then set f.key (setting_of f.type (entered values f)) out else out)

-- The loop over the custom rows.
unfoldable pub fill_rows : List CustomRow → Dict Setting → Dict Setting
fill_rows [] out = out
fill_rows (row ∷ rows) out =
    fill_rows rows (if truthy (trim row.key) then set (trim row.key) (words row.value) out else out)

unfoldable pub provider_config_from_form : String → Dict String → List CustomRow → Dict Setting
unfolding fill_fields fill_rows
provider_config_from_form provider values custom_rows =
    elim (get provider default_provider_schemas) [
      | some schema ↦ fill_fields schema.fields values []
      | none ↦ fill_rows custom_rows []
    ]

abbrev pub is_missing : Dict String → ProviderConfigField → Bool
is_missing values f = f.required && not (truthy (entered values f))

unfoldable pub missing_required_provider_fields : String → Dict String → List String
missing_required_provider_fields provider values = elim (get provider default_provider_schemas) [
  | none ↦ []
  | some schema ↦ map (λ f. f.label) (filter (is_missing values) schema.fields)
]

-- The options of `ProviderSelect`, besides the empty one.
unfoldable pub provider_choices : String → List String
provider_choices channel = elim (get channel providers_by_channel) [
  | some providers ↦ providers
  | none ↦ map (λ e. e.0) default_provider_schemas
]
