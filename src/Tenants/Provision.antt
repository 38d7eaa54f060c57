-- ===== src/Tenants/Provision.antt =====
-- TenantsPage.tsx: the form of `TenantProvisionModal`, what its controls do, and the body of the
-- request that is made of it.
use notification_platform.Base.{
  ℕ, zero, suc, String, Bool, true, not, ◌&&◌, ◌||◌, Option, List, [], ◌∷◌, ◌++◌, map, filter,
  contains, truthy, text_or_nil, ◌===◌, if◌then◌else◌, Dict, get, set,
}

pub record CatalogFeature : Type 0 where
  pub identifier : String
  pub name : String
  pub category : String

pub record CatalogChannel : Type 0 where
  pub channel : String
  pub description : String
  pub enabled : Bool

pub record ProviderType : Type 0 where
  pub provider : String
  pub channel : String
  pub enabled : Option Bool

pub record StarterTemplate : Type 0 where
  pub template_key : String
  pub channel : String
  pub subject : String
  pub body : String

pub record ProvisionForm : Type 0 where
  pub name : String
  pub slug : String
  pub timezone : String
  pub country : String
  pub default_sender : String
  pub default_sms : String
  pub features : List String
  pub channels : List String
  pub providers : Dict String
  pub templates : List StarterTemplate

unfoldable pub empty_provision : ProvisionForm
empty_provision = record {
  name = "";
  slug = "";
  timezone = "";
  country = "";
  default_sender = "";
  default_sms = "";
  features = [];
  channels = [];
  providers = [];
  templates = [];
}

-- `toggle`, of one list.
unfoldable pub toggled : String → List String → List String
toggled value xs =
    if contains xs value then filter (λ v. not (v === value)) xs else xs ++ value ∷ []

unfoldable pub toggle_feature : String → ProvisionForm → ProvisionForm
unfolding toggled
toggle_feature value form = record form { features = toggled value form.features }

unfoldable pub toggle_channel : String → ProvisionForm → ProvisionForm
unfolding toggled
toggle_channel value form = record form { channels = toggled value form.channels }

-- `updateTemplate`: the template at an index is changed.
unfoldable pub updated_at :
    ℕ → (StarterTemplate → StarterTemplate) → List StarterTemplate → List StarterTemplate
updated_at n patch [] = []
updated_at zero patch (t ∷ ts) = patch t ∷ ts
updated_at (suc n) patch (t ∷ ts) = t ∷ updated_at n patch ts

unfoldable pub update_template :
    ℕ → (StarterTemplate → StarterTemplate) → ProvisionForm → ProvisionForm
unfolding updated_at
update_template n patch form = record form { templates = updated_at n patch form.templates }

abbrev first_channel : List String → String
first_channel [] = "email"
first_channel (String.[] ∷ cs) = "email"
first_channel (c ∷ cs) = c

-- `Add template`, and `Remove`, which leaves out the template at an index.
unfoldable pub add_template : ProvisionForm → ProvisionForm
add_template form = record form {
  templates =
      form.templates
      ++ (record {
        template_key = "";
        channel = first_channel form.channels;
        subject = "";
        body = "";
      })
        ∷ [];
}

unfoldable pub removed_at : ℕ → List StarterTemplate → List StarterTemplate
removed_at n [] = []
removed_at zero (t ∷ ts) = ts
removed_at (suc n) (t ∷ ts) = t ∷ removed_at n ts

unfoldable pub remove_template : ℕ → ProvisionForm → ProvisionForm
unfolding removed_at
remove_template n form = record form { templates = removed_at n form.templates }

-- The default provider that is chosen for a channel.
unfoldable pub choose_provider : String → String → ProvisionForm → ProvisionForm
choose_provider channel value form = record form { providers = set channel value form.providers }

-- The provider types that a channel of the modal offers.
unfoldable pub offered : CatalogChannel → List ProviderType → List ProviderType
offered c types =
    filter (λ p. p.channel === c.channel || c.channel === "in_app" && p.channel === "websocket")
      types

-- Whether the modal's save button is disabled.
unfoldable pub save_disabled : Bool → ProvisionForm → Bool
save_disabled saving form = saving || not (truthy form.name) || not (truthy form.slug)

pub record TenantSettings : Type 0 where
  pub timezone : String
  pub country : String
  pub default_sender : String
  pub default_sms : String

pub record ChannelGrant : Type 0 where
  pub channel : String
  pub enabled : Bool
  pub direction : String
  pub rate_limit_per_second : ℕ
  pub daily_quota : ℕ

pub record ProviderGrant : Type 0 where
  pub channel : String
  pub provider : String
  pub is_default : Bool

pub record Payload : Type 0 where
  pub name : String
  pub slug : String
  pub settings : TenantSettings
  pub features : List String
  pub channels : List ChannelGrant
  pub providers : List ProviderGrant
  pub templates : List StarterTemplate

unfoldable pub channel_grant : String → Bool → ChannelGrant
channel_grant channel enabled = record {
  channel = channel;
  enabled = enabled;
  direction = if channel === "websocket" || channel === "in_app" then "two_way" else "one_way";
  rate_limit_per_second = 10;
  daily_quota = 10000;
}

abbrev pub chosen_provider : ProvisionForm → String → String
chosen_provider form c = text_or_nil (get c form.providers)

abbrev pub provider_grant : ProvisionForm → String → ProviderGrant
provider_grant form c = record { channel = c; provider = chosen_provider form c; is_default = true }

-- `payload`, of the form and the channels of the catalog.
unfoldable pub payload : List CatalogChannel → ProvisionForm → Payload
unfolding channel_grant
payload channels form = record {
  name = form.name;
  slug = form.slug;
  settings = record {
    timezone = form.timezone;
    country = form.country;
    default_sender = form.default_sender;
    default_sms = form.default_sms;
  };
  features = form.features;
  channels = map (λ c. channel_grant c.channel (contains form.channels c.channel)) channels;
  providers =
      map (provider_grant form) (filter (λ c. truthy (chosen_provider form c)) form.channels);
  templates = form.templates;
}
