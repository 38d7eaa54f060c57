-- ===== src/Providers/Page.antt =====
-- ProvidersPage.tsx: the state of the page and its handlers. Toasts are left out; each request that a
-- handler sends is a value, and its end is a handler of its own.
pub mod Laws
use Prim.Native.String
use notification_platform.Base.{
  ℕ, String, Bool, true, false, not, ◌&&◌, ◌||◌, Option, none, some, List, [], ◌∷◌, ◌++◌, map,
  filter, Dict, set, truthy, or_text, if◌then◌else◌, ◌===◌,
}
use notification_platform.Widgets.Paging.{PaginationMeta}
use notification_platform.Providers.Config.{
  CustomRow, Setting, provider_config_from_form, missing_required_provider_fields,
}

pub record ProviderTypeItem : Type 0 where
  pub provider : String
  pub channel : String
  pub description : String
  pub tenant_count : ℕ
  pub enabled : Bool

pub record TenantProviderConfig : Type 0 where
  pub id : String
  pub channel : String
  pub provider : String
  pub is_default : Bool
  pub status : String

pub record TenantChannel : Type 0 where
  pub id : String
  pub channel : String
  pub enabled : Bool

-- `form`; its `config_json` is always "" once the form is open, and is never read.
pub record ProviderForm : Type 0 where
  pub channel : String
  pub provider : String
  pub status : String
  pub is_default : Bool

pub record Page : Type 0 where
  pub items : List ProviderTypeItem
  pub tenant_configs : List TenantProviderConfig
  pub channels : List TenantChannel
  pub loading : Bool
  pub saving : String
  pub editing : Option TenantProviderConfig
  pub show_form : Bool
  pub form : ProviderForm
  pub config_values : Dict String
  pub custom_rows : List CustomRow
  pub meta : Option PaginationMeta

abbrev no_rows : List CustomRow
no_rows = record { key = ""; value = "" } ∷ []

unfoldable pub initial : Page
initial = record {
  items = [];
  tenant_configs = [];
  channels = [];
  loading = true;
  saving = "";
  editing = none;
  show_form = false;
  form = record { channel = ""; provider = ""; status = "active"; is_default = false };
  config_values = [];
  custom_rows = no_rows;
  meta = none;
}

-- The two replies of the effect, and its failure.
unfoldable pub catalog_loaded : List ProviderTypeItem → Option PaginationMeta → Page → Page
catalog_loaded items meta p = record p { items = items; meta = meta; loading = false }

unfoldable pub settings_loaded :
    List TenantProviderConfig → Option PaginationMeta → List TenantChannel → Page → Page
settings_loaded providers meta channels p = record p {
  tenant_configs = providers;
  meta = meta;
  channels = filter (λ c. c.enabled) channels;
  loading = false;
}

unfoldable pub load_failed : Page → Page
load_failed p = record p { loading = false }

-- A request to the server: the method, the path, and the body as its fields.
pub data ProviderRequest : Type 0 where
  set_enabled : String → Bool → ProviderRequest
  create_config : ProviderForm → Option (Dict Setting) → ProviderRequest
  update_config : String → ProviderForm → Option (Dict Setting) → ProviderRequest
  set_status : String → String → ProviderRequest

-- `toggle` up to its `await`, and after it.
unfoldable pub toggle : ProviderTypeItem → Page → ProviderRequest × Page
toggle item p = (set_enabled item.provider (not item.enabled), record p { saving = item.provider })

unfoldable pub enable_rows : String → Bool → List ProviderTypeItem → List ProviderTypeItem
enable_rows provider enabled items =
    map (λ i. if i.provider === provider then record i { enabled = enabled } else i) items

unfoldable pub toggled : ProviderTypeItem → Bool → Page → Page
unfolding enable_rows
toggled item returned p = record p {
  items = if returned then enable_rows item.provider (not item.enabled) p.items else p.items;
  saving = "";
}

abbrev first_channel : List TenantChannel → String
first_channel [] = ""
first_channel (c ∷ cs) = c.channel

-- `openProviderForm`
unfoldable pub open_provider_form : Option TenantProviderConfig → Page → Page
open_provider_form (some item) p = record p {
  editing = some item;
  form = record {
    channel = item.channel;
    provider = item.provider;
    status = item.status;
    is_default = item.is_default;
  };
  config_values = [];
  custom_rows = no_rows;
  show_form = true;
}
open_provider_form none p = record p {
  editing = none;
  form = record {
    channel = first_channel p.channels;
    provider = "";
    status = "active";
    is_default = false;
  };
  config_values = [];
  custom_rows = no_rows;
  show_form = true;
}

-- The inputs of the form.
unfoldable pub choose_provider : String → Page → Page
choose_provider provider p = record p {
  form = record p.form { provider = provider };
  config_values = [];
  custom_rows = no_rows;
}

unfoldable pub choose_channel : String → Page → Page
choose_channel channel p = record p { form = record p.form { channel = channel } }

unfoldable pub enter_value : String → String → Page → Page
enter_value key value p = record p { config_values = set key value p.config_values }

abbrev pub is_nil : {A : Type 0} → List A → Bool
is_nil [] = true
is_nil (x ∷ xs) = false

abbrev pub is_new : Option TenantProviderConfig → Bool
is_new none = true
is_new (some item) = false

abbrev pub id_of : Option TenantProviderConfig → String
id_of none = "new-provider"
id_of (some item) = or_text item.id "new-provider"

abbrev pub config_of : Page → Dict Setting
config_of p = provider_config_from_form p.form.provider p.config_values p.custom_rows

abbrev pub request_of :
    Option TenantProviderConfig → ProviderForm → Option (Dict Setting) → ProviderRequest
request_of none form config = create_config form config
request_of (some item) form config = update_config item.id form config

-- `saveTenantProvider` up to its `await`: the request, unless it stops before.
unfoldable pub save_tenant_provider : Page → Option ProviderRequest × Page
save_tenant_provider p =
    if not (truthy p.form.channel) || not (truthy p.form.provider)
    then (none, p)
    else if is_new p.editing
        && not (is_nil (missing_required_provider_fields p.form.provider p.config_values))
    then (none, p)
    else (
      some
          (request_of p.editing p.form (if is_nil (config_of p) then none else some (config_of p))),
      record p { saving = id_of p.editing },
    )

-- After the request: it returned, and the list was loaded again or not.
unfoldable pub tenant_provider_saved :
    Option (List TenantProviderConfig × Option PaginationMeta) → Page → Page
tenant_provider_saved none p = record p { show_form = false; editing = none; saving = "" }
tenant_provider_saved (some (providers, meta)) p = record p {
  show_form = false;
  editing = none;
  tenant_configs = providers;
  meta = meta;
  saving = "";
}

unfoldable pub save_failed : Page → Page
save_failed p = record p { saving = "" }

-- `setTenantProviderStatus` up to its `await`, and after it.
unfoldable pub set_tenant_provider_status :
    TenantProviderConfig → String → Page → ProviderRequest × Page
set_tenant_provider_status item status p =
    (set_status item.id status, record p { saving = item.id })

unfoldable pub status_rows : String → String → List TenantProviderConfig → List TenantProviderConfig
status_rows id status configs =
    map (λ c. if c.id === id then record c { status = status } else c) configs

unfoldable pub tenant_provider_status_set : TenantProviderConfig → String → Bool → Page → Page
unfolding status_rows
tenant_provider_status_set item status returned p = record p {
  tenant_configs =
      if returned then status_rows item.id status p.tenant_configs else p.tenant_configs;
  saving = "";
}
