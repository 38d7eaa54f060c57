-- ===== src/Send/Tenancy.antt =====
-- SendNotificationPage.tsx: the choice of a tenant and the loading of what belongs to it. The replies
-- of the templates and of the channels are those of Send/Form.
pub mod Stale
use notification_platform.Base.{
  String, Bool, true, false, Option, none, some, List, [], ◌∷◌, truthy, or_text, if◌then◌else◌,
}
use notification_platform.Send.Form.{Form, ContactOption, GroupOption, opened}

pub record TenantChoice : Type 0 where
  pub id : String
  pub name : String
  pub slug : String

-- The page: the form, and what it keeps for the choice of a tenant.
pub record SendPage : Type 0 where
  pub form : Form
  pub tenants : List TenantChoice
  pub loading_tenant : Bool
  pub my_tenant_id : String

unfoldable pub opened_page : Bool → String → SendPage
unfolding opened
opened_page is_platform my_tenant_id = record {
  form = opened is_platform my_tenant_id;
  tenants = [];
  loading_tenant = false;
  my_tenant_id = my_tenant_id;
}

abbrev first_chosen : String → List TenantChoice → String
first_chosen (String.◌∷◌ c s) tenants = String.◌∷◌ c s
first_chosen String.[] [] = ""
first_chosen String.[] (t ∷ ts) = t.id

-- The reply of the list of tenants: the first is chosen if none is.
unfoldable pub tenants_listed : List TenantChoice → SendPage → SendPage
tenants_listed reply p = record p {
  tenants = reply;
  form = record p.form { tenant_id = first_chosen p.form.tenant_id reply };
}

-- `effectiveTenant`
unfoldable pub effective_tenant : SendPage → String
effective_tenant p = or_text p.form.tenant_id p.my_tenant_id

-- The effect on it: the tenant whose contacts, groups, templates and channels are asked for.
unfoldable pub load_tenant : SendPage → Option String × SendPage
unfolding effective_tenant
load_tenant p =
    if truthy (effective_tenant p)
    then (some (effective_tenant p), record p { loading_tenant = true })
    else (none, p)

-- The replies of the contacts and of the groups; a failure changes nothing.
unfoldable pub load_contacts : List ContactOption → Form → Form
load_contacts reply f = record f { contacts = reply }

unfoldable pub load_groups : List GroupOption → Form → Form
load_groups reply f = record f { groups = reply }

-- All four requests have ended.
unfoldable pub tenant_loaded : SendPage → SendPage
tenant_loaded p = record p { loading_tenant = false }
