-- ===== src/Tenants/Page.antt =====
-- TenantsPage.tsx: the state of the page and its handlers. Toasts are left out, and the list's
-- query is that of Listing; a request that a handler sends is a value, and what follows its reply is
-- a function of its own.
use notification_platform.Base.{
  String, Bool, true, false, ◌&&◌, Option, none, some, List, [], ◌∷◌, map, filter, find,
  text_or_nil, ◌===◌, if◌then◌else◌, Dict, set,
}
use notification_platform.Widgets.Paging.{PaginationMeta}
use notification_platform.Tenants.Provision.{
  CatalogFeature, CatalogChannel, ProviderType, StarterTemplate, ProvisionForm, empty_provision,
  Payload, payload,
}

pub record Tenant : Type 0 where
  pub id : String
  pub name : String
  pub slug : String
  pub status : String
  pub created_at : String

pub record TenantsPage : Type 0 where
  pub items : List Tenant
  pub error : String
  pub loading : Bool
  pub show_create : Bool
  pub create_err : String
  pub edit_id : Option String
  pub form : ProvisionForm
  pub features : List CatalogFeature
  pub channels : List CatalogChannel
  pub provider_types : List ProviderType
  pub saving : Bool
  pub meta : Option PaginationMeta
  pub search : String
  pub status_filter : String

unfoldable pub initial : TenantsPage
unfolding empty_provision
initial = record {
  items = [];
  error = "";
  loading = true;
  show_create = false;
  create_err = "";
  edit_id = none;
  form = empty_provision;
  features = [];
  channels = [];
  provider_types = [];
  saving = false;
  meta = none;
  search = "";
  status_filter = "";
}

-- `load` up to the reply, and its two ends.
unfoldable pub load : TenantsPage → TenantsPage
load p = record p { loading = true }

unfoldable pub loaded : List Tenant → Option PaginationMeta → TenantsPage → TenantsPage
loaded items meta p = record p { items = items; meta = meta; loading = false }

unfoldable pub load_failed : String → TenantsPage → TenantsPage
load_failed message p = record p { error = message; loading = false }

-- `enabled !== false`
abbrev pub not_disabled : Option Bool → Bool
not_disabled (some false) = false
not_disabled _ = true

-- The replies of the catalogs.
unfoldable pub features_loaded : List CatalogFeature → TenantsPage → TenantsPage
features_loaded reply p = record p { features = reply }

unfoldable pub channels_loaded : List CatalogChannel → TenantsPage → TenantsPage
channels_loaded reply p = record p { channels = filter (λ c. c.enabled) reply }

unfoldable pub types_loaded : List ProviderType → TenantsPage → TenantsPage
types_loaded reply p = record p { provider_types = filter (λ t. not_disabled t.enabled) reply }

-- The button `Create tenant`.
unfoldable pub open_create : TenantsPage → TenantsPage
unfolding empty_provision
open_create p = record p { form = empty_provision; create_err = ""; show_create = true }

pub data TenantRequest : Type 0 where
  create : Payload → TenantRequest
  update : String → Payload → TenantRequest
  set_status : String → String → TenantRequest

-- `handleCreate` up to its `await`, and its two ends.
unfoldable pub handle_create : TenantsPage → TenantRequest × TenantsPage
unfolding payload
handle_create p = (create (payload p.channels p.form), record p { create_err = ""; saving = true })

unfoldable pub created : TenantsPage → TenantsPage
unfolding load empty_provision
created p = record (load p) { show_create = false; form = empty_provision; saving = false }

-- The `catch` of `handleCreate` and of `handleEdit`.
unfoldable pub save_failed : String → TenantsPage → TenantsPage
save_failed message p = record p { create_err = message; saving = false }

-- `handleEdit` up to its `await`, and its end.
unfoldable pub handle_edit : String → TenantsPage → TenantRequest × TenantsPage
unfolding payload
handle_edit id p = (update id (payload p.channels p.form), record p { saving = true })

unfoldable pub updated : TenantsPage → TenantsPage
unfolding load
updated p = record (load p) { edit_id = none; saving = false }

-- `toggleStatus`: its request, and its two ends.
unfoldable pub toggle_status : Tenant → TenantRequest
toggle_status item = set_status item.id (if item.status === "active" then "disabled" else "active")

unfoldable pub status_changed : Option String → TenantsPage → TenantsPage
unfolding load
status_changed none p = load p
status_changed (some message) p = record p { error = message }

-- The replies that `openEdit` waits for; a settings key that is null or absent is `none`.
pub record OverviewFeature : Type 0 where
  pub feature_key : String
  pub enabled : Bool

pub record OverviewChannel : Type 0 where
  pub channel : String
  pub enabled : Bool

pub record OverviewProvider : Type 0 where
  pub channel : String
  pub provider : String
  pub is_default : Bool
  pub status : String

pub record Replies : Type 0 where
  pub features : List OverviewFeature
  pub channels : List OverviewChannel
  pub providers : List OverviewProvider
  pub timezone : Option String
  pub country : Option String
  pub default_sender : Option String
  pub default_sms : Option String
  pub templates : List StarterTemplate

-- `Object.fromEntries`: a later entry of a key replaces an earlier one.
unfoldable pub from_entries : Dict String → Dict String → Dict String
from_entries [] m = m
from_entries ((k, v) ∷ entries) m = from_entries entries (set k v m)

abbrev is_current : OverviewProvider → Bool
is_current p = p.is_default && p.status === "active"

abbrev pub enabled_features : List OverviewFeature → List String
enabled_features fs = map (λ f. f.feature_key) (filter (λ f. f.enabled) fs)

abbrev pub enabled_channels : List OverviewChannel → List String
enabled_channels cs = map (λ c. c.channel) (filter (λ c. c.enabled) cs)

-- The form that the replies give.
unfoldable pub form_of : Tenant → Replies → ProvisionForm
unfolding from_entries
form_of item r = record {
  name = item.name;
  slug = item.slug;
  timezone = text_or_nil r.timezone;
  country = text_or_nil r.country;
  default_sender = text_or_nil r.default_sender;
  default_sms = text_or_nil r.default_sms;
  features = enabled_features r.features;
  channels = enabled_channels r.channels;
  providers = from_entries (map (λ p. (p.channel, p.provider)) (filter is_current r.providers)) [];
  templates = r.templates;
}

-- `openEdit` up to its `await`, and its two ends.
unfoldable pub open_edit : Tenant → TenantsPage → TenantsPage
unfolding empty_provision
open_edit item p = record p {
  edit_id = some item.id;
  form = record empty_provision { name = item.name; slug = item.slug };
}

unfoldable pub edit_loaded : Tenant → Replies → TenantsPage → TenantsPage
unfolding form_of
edit_loaded item r p = record p { create_err = ""; form = form_of item r }

unfoldable pub edit_failed : String → TenantsPage → TenantsPage
edit_failed message p = record p { create_err = message }

-- `editingTenant`, whose modal is shown.
abbrev with_id : Option String → List Tenant → Option Tenant
with_id none items = none
with_id (some id) items = find (λ item. item.id === id) items

unfoldable pub editing_tenant : TenantsPage → Option Tenant
editing_tenant p = with_id p.edit_id p.items
