-- ===== src/Access/Page.antt =====
-- ApiKeysPage.tsx: the state of the page and its handlers, with the toasts left out and the list's
-- query in Listing. A request that a handler sends is a value, and what follows its reply is a
-- function of its own.
use Prim.Native.String
use notification_platform.Base.{
  String, Bool, true, false, not, ◌&&◌, ◌||◌, Option, none, some, List, [], ◌∷◌, find, truthy,
  ◌===◌, if◌then◌else◌,
}
use notification_platform.Widgets.Paging.{PaginationMeta}

pub record ApiKey : Type 0 where
  pub id : String
  pub tenant_id : String
  pub name : String
  pub scopes : String
  pub status : String
  pub last_used_at : String
  pub created_at : String

pub record KeyTenant : Type 0 where
  pub id : String
  pub name : String
  pub slug : String
  pub status : String

pub record ApiKeysPage : Type 0 where
  pub is_platform : Bool
  pub items : List ApiKey
  pub loading : Bool
  pub show_form : Bool
  pub name : String
  pub saving : Bool
  pub new_key : String
  pub copied : Bool
  pub revoke_target : Option ApiKey
  pub selected : Option ApiKey
  pub tenants : List KeyTenant
  pub tenant_id : String
  pub tenant_filter : String
  pub search : String
  pub meta : Option PaginationMeta

unfoldable pub initial : Bool → ApiKeysPage
initial is_platform = record {
  is_platform = is_platform;
  items = [];
  loading = true;
  show_form = false;
  name = "";
  saving = false;
  new_key = "";
  copied = false;
  revoke_target = none;
  selected = none;
  tenants = [];
  tenant_id = "";
  tenant_filter = "";
  search = "";
  meta = none;
}

-- `load` up to the reply, and its two ends.
unfoldable pub load : ApiKeysPage → ApiKeysPage
load p = record p { loading = true }

unfoldable pub loaded : List ApiKey → Option PaginationMeta → ApiKeysPage → ApiKeysPage
loaded items meta p = record p { items = items; meta = meta; loading = false }

unfoldable pub load_failed : ApiKeysPage → ApiKeysPage
load_failed p = record p { loading = false }

-- The reply of the list of tenants.
unfoldable pub tenants_loaded : List KeyTenant → ApiKeysPage → ApiKeysPage
tenants_loaded reply p = record p { tenants = reply }

-- The name that a tenant's key gets by default.
abbrev pub default_name : KeyTenant → String
default_name t = String.◌++◌ t.name " API Key"

-- `tenants.some(...)`: the name is the default one of a tenant.
unfoldable pub is_default : List KeyTenant → String → Bool
is_default [] name = false
is_default (t ∷ ts) name = name === default_name t || is_default ts name

abbrev renamed : Option KeyTenant → List KeyTenant → String → String
renamed none tenants name = name
renamed (some t) tenants name =
    if not (truthy name) || is_default tenants name then default_name t else name

-- `chooseTenant`
unfoldable pub choose_tenant : String → ApiKeysPage → ApiKeysPage
unfolding find is_default
choose_tenant value p = record p {
  tenant_id = value;
  name = renamed (find (λ t. t.id === value) p.tenants) p.tenants p.name;
}

-- The text field of the name.
unfoldable pub type_name : String → ApiKeysPage → ApiKeysPage
type_name value p = record p { name = value }

-- The button `Create API key`, and Cancel.
unfoldable pub toggle_form : ApiKeysPage → ApiKeysPage
toggle_form p = record p { tenant_id = p.tenant_filter; show_form = not p.show_form }

unfoldable pub close_form : ApiKeysPage → ApiKeysPage
close_form p = record p { show_form = false }

-- Whether the modal with the form is shown, and whether its button is disabled.
unfoldable pub form_shown : ApiKeysPage → Bool
form_shown p = p.show_form && not (truthy p.new_key)

unfoldable pub submit_disabled : ApiKeysPage → Bool
submit_disabled p = p.saving || p.is_platform && not (truthy p.tenant_id)

-- The body of the request; `tenant_id` is sent by a platform administrator only.
pub record NewKey : Type 0 where
  pub name : String
  pub tenant_id : Option String

-- `submit` up to its `await`, and its two ends.
unfoldable pub submit : ApiKeysPage → NewKey × ApiKeysPage
submit p = (
  record { name = p.name; tenant_id = if p.is_platform then some p.tenant_id else none },
  record p { saving = true; new_key = "" },
)

unfoldable pub submitted : String → ApiKeysPage → ApiKeysPage
unfolding load
submitted api_key p = record (load p) { new_key = api_key; name = ""; saving = false }

unfoldable pub submit_failed : ApiKeysPage → ApiKeysPage
submit_failed p = record p { saving = false }

-- `copyKey`: what is written to the clipboard; then the write, and the end of its timer.
unfoldable pub copy_key : ApiKeysPage → Option String
copy_key p = if truthy p.new_key then some p.new_key else none

unfoldable pub key_copied : ApiKeysPage → ApiKeysPage
key_copied p = record p { copied = true }

unfoldable pub copy_timer : ApiKeysPage → ApiKeysPage
copy_timer p = record p { copied = false }

-- `onClose` of the modal of the new key.
unfoldable pub dismiss_key : ApiKeysPage → ApiKeysPage
dismiss_key p = record p { new_key = ""; show_form = false }

-- The buttons Manage and Revoke of a row, and `Revoke key` of the modal of a selected key.
unfoldable pub manage : ApiKey → ApiKeysPage → ApiKeysPage
manage key p = record p { selected = some key }

unfoldable pub ask_revoke : ApiKey → ApiKeysPage → ApiKeysPage
ask_revoke key p = record p { revoke_target = some key }

unfoldable pub revoke_selected : ApiKey → ApiKeysPage → ApiKeysPage
revoke_selected key p = record p { selected = none; revoke_target = some key }

-- The end of `revoke`, with the error if the request threw.
unfoldable pub revoked : Option String → ApiKeysPage → ApiKeysPage
unfolding load
revoked none p = load (record p { revoke_target = none })
revoked (some message) p = p
