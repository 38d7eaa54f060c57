-- ===== src/Users/Page.antt =====
-- UsersPage.tsx: the state of the page, its handlers and what they send. Toasts are left out.
use notification_platform.Base.{
  String, Bool, true, false, not, ◌&&◌, ◌||◌, Option, none, some, List, find, filter, truthy,
  if◌then◌else◌, ◌===◌,
}

pub record User : Type 0 where
  pub id : String
  pub email : String
  pub name : String
  pub is_platform_admin : Bool
  pub status : String

-- A role without a tenant has "" here.
pub record UserRole : Type 0 where
  pub id : String
  pub tenant_id : String
  pub name : String
  pub key : String
  pub scope : String

pub data Scope : Type 0 where
  tenant platform : Scope

pub record UsersPage : Type 0 where
  pub is_platform : Bool
  pub my_tenant_id : String
  pub items : List User
  pub roles : List UserRole
  pub show_form : Bool
  pub email : String
  pub name : String
  pub password : String
  pub create_scope : Scope
  pub create_tenant_id : String
  pub create_role_id : String
  pub saving : Bool
  pub editing_id : Option String
  pub edit_name : String
  pub edit_email : String
  pub edit_role_id : String
  pub viewing_id : Option String

-- The page with what the server has listed.
unfoldable pub listed : Bool → String → List User → List UserRole → UsersPage
listed is_platform my_tenant_id items roles = record {
  is_platform = is_platform;
  my_tenant_id = my_tenant_id;
  items = items;
  roles = roles;
  show_form = false;
  email = "";
  name = "";
  password = "";
  create_scope = tenant;
  create_tenant_id = "";
  create_role_id = "";
  saving = false;
  editing_id = none;
  edit_name = "";
  edit_email = "";
  edit_role_id = "";
  viewing_id = none;
}

abbrev pub is_platform_scope : Scope → Bool
is_platform_scope platform = true
is_platform_scope tenant = false

-- `isPlatformUser` and `tenantId` of `submit`.
abbrev pub creates_platform : UsersPage → Bool
creates_platform p = p.is_platform && is_platform_scope p.create_scope

abbrev pub tenant_of : UsersPage → String
tenant_of p = if p.is_platform then p.create_tenant_id else p.my_tenant_id

abbrev pub sent_tenant : UsersPage → Option String
sent_tenant p =
    if not (creates_platform p) && truthy (tenant_of p) then some (tenant_of p) else none

pub record NewUser : Type 0 where
  pub email : String
  pub name : String
  pub password : String
  pub is_platform_admin : Bool
  pub tenant_id : Option String

-- The first request of `submit`.
unfoldable pub create_user : UsersPage → NewUser
create_user p = record {
  email = p.email;
  name = p.name;
  password = p.password;
  is_platform_admin = creates_platform p;
  tenant_id = sent_tenant p;
}

pub record Assignment : Type 0 where
  pub user_id : String
  pub role_id : String
  pub tenant_id : Option String

-- The second request of `submit`, once the user is created.
unfoldable pub assign_created : String → UsersPage → Option Assignment
assign_created created p =
    if truthy p.create_role_id
    then some (record { user_id = created; role_id = p.create_role_id; tenant_id = sent_tenant p })
    else none

-- The end of `submit`: every request returned, or one threw.
unfoldable pub create_done : Bool → UsersPage → UsersPage
create_done true p = record p {
  email = "";
  name = "";
  password = "";
  create_scope = tenant;
  create_tenant_id = "";
  create_role_id = "";
  show_form = false;
  saving = false;
}
create_done false p = record p { saving = false }

-- The inputs of the form that creates a user.
unfoldable pub choose_scope : Scope → UsersPage → UsersPage
choose_scope scope p = record p { create_scope = scope; create_tenant_id = ""; create_role_id = "" }

unfoldable pub choose_tenant : String → UsersPage → UsersPage
choose_tenant id p = record p { create_tenant_id = id; create_role_id = "" }

unfoldable pub choose_role : String → UsersPage → UsersPage
choose_role id p = record p { create_role_id = id }

unfoldable pub type_account : String → String → String → UsersPage → UsersPage
type_account email name password p = record p { email = email; name = name; password = password }

abbrev pub is_tenant_role : UsersPage → UserRole → Bool
is_tenant_role p r =
    r.scope === "tenant"
    && (not p.is_platform || not (truthy r.tenant_id) || r.tenant_id === p.create_tenant_id)

-- `createTenantRoles`, `createPlatformRoles` and `createRoleOptions`
unfoldable pub create_role_options : UsersPage → List UserRole
create_role_options p =
    if is_platform_scope p.create_scope
    then filter (λ r. r.scope === "platform") p.roles
    else filter (is_tenant_role p) p.roles

-- `createDisabled`
unfoldable pub create_disabled : UsersPage → Bool
create_disabled p =
    let tenant_required = p.is_platform && not (is_platform_scope p.create_scope) in
    let role_required =
      is_platform_scope p.create_scope || not p.is_platform || truthy p.create_tenant_id in
    p.saving
    || tenant_required && not (truthy p.create_tenant_id)
    || role_required && not (truthy p.create_role_id)

-- `startEdit`
unfoldable pub start_edit : User → UsersPage → UsersPage
start_edit item p = record p {
  editing_id = some item.id;
  edit_name = item.name;
  edit_email = item.email;
  edit_role_id = "";
}

abbrev pub role_tenant : Option UserRole → Option String
role_tenant none = none
role_tenant (some r) = if r.scope === "tenant" && truthy r.tenant_id then some r.tenant_id else none

-- The second request of `saveEdit`; the first sends the name and the address.
unfoldable pub assign_edited : String → UsersPage → Option Assignment
assign_edited id p =
    if truthy p.edit_role_id && p.is_platform
    then some (record {
      user_id = id;
      role_id = p.edit_role_id;
      tenant_id = role_tenant (find (λ r. r.id === p.edit_role_id) p.roles);
    })
    else none

-- The status that `toggleUserStatus` asks for.
unfoldable pub next_status : User → String
next_status u = if u.status === "active" then "disabled" else "active"
