-- ===== src/Roles/Page.antt =====
-- RolesPage.tsx: the state of the page and its handlers. Toasts are left out; a request that a handler
-- sends is a value, and what follows its reply is a function of its own.
use notification_platform.Base.{
  String, Bool, true, false, not, ◌&&◌, ◌||◌, Option, none, some, List, [], ◌∷◌, ◌++◌, map, filter,
  contains, truthy, if◌then◌else◌, ◌===◌,
}
use notification_platform.Send.Template.{dedupe}
use notification_platform.Widgets.Paging.{PaginationMeta}
use notification_platform.Roles.Grouping.{Permission}

pub record Role : Type 0 where
  pub id : String
  pub tenant_id : String
  pub name : String
  pub key : String
  pub scope : String
  pub status : String

pub record RoleDetail : Type 0 where
  pub role : Role
  pub permissions : List Permission

pub data RoleView : Type 0 where
  platform tenant_defaults tenant_custom : RoleView

-- A `Set` of permission ids, in the order in which they were added.
pub record RolesPage : Type 0 where
  pub is_platform : Bool
  pub items : List Role
  pub all_perms : List Permission
  pub loading : Bool
  pub show_form : Bool
  pub name : String
  pub key : String
  pub tenant_id : String
  pub create_perms : List String
  pub saving : Bool
  pub editing_id : Option String
  pub edit_name : String
  pub edit_perms : List String
  pub viewing_id : Option String
  pub view_detail : Option RoleDetail
  pub role_view : RoleView
  pub tenant_filter : String
  pub meta : Option PaginationMeta

abbrev pub is_custom : RoleView → Bool
is_custom tenant_custom = true
is_custom view = false

abbrev pub is_defaults : RoleView → Bool
is_defaults tenant_defaults = true
is_defaults view = false

abbrev pub is_platform_view : RoleView → Bool
is_platform_view platform = true
is_platform_view view = false

-- The query of `load`, besides the page and its size.
pub record RolesQuery : Type 0 where
  pub filter_scope : String
  pub filter_tenant_id : Option String

unfoldable pub roles_query : RolesPage → RolesQuery
roles_query p = record {
  filter_scope = if p.is_platform && is_platform_view p.role_view then "platform" else "tenant";
  filter_tenant_id = if p.is_platform && is_custom p.role_view then some p.tenant_filter else none;
}

-- The two filters on the reply.
unfoldable pub shown_roles : RolesPage → List Role → List Role
shown_roles p roles =
    filter
      (λ r.
        not p.is_platform
        || not (is_custom p.role_view)
        || truthy p.tenant_filter
        || truthy r.tenant_id)
      (if is_defaults p.role_view then filter (λ r. not (truthy r.tenant_id)) roles else roles)

unfoldable pub roles_loaded :
    List Role → Option PaginationMeta → List Permission → RolesPage → RolesPage
unfolding shown_roles
roles_loaded roles meta perms p = record p {
  items = shown_roles p roles;
  meta = meta;
  all_perms = perms;
  loading = false;
}

-- A request about roles: the method and path as the constructor, the body as its fields.
pub data RoleRequest : Type 0 where
  create_role : String → String → String → Option String → RoleRequest
  rename_role : String → String → RoleRequest
  put_permissions : String → List String → RoleRequest
  delete_role : String → RoleRequest
  read_role : String → RoleRequest

-- `submit`: the first request, and the second once the role is created.
unfoldable pub create_request : RolesPage → RoleRequest
create_request p =
    let tenant = if p.is_platform && is_custom p.role_view then p.tenant_id else "" in
    create_role p.name p.key
      (if p.is_platform && is_platform_view p.role_view then "platform" else "tenant")
      (if truthy tenant then some tenant else none)

abbrev is_nil : List String → Bool
is_nil [] = true
is_nil (x ∷ xs) = false

unfoldable pub grant_request : String → RolesPage → Option RoleRequest
grant_request created p =
    if is_nil p.create_perms then none else some (put_permissions created p.create_perms)

unfoldable pub submit_role : RolesPage → RoleRequest × RolesPage
unfolding create_request
submit_role p = (create_request p, record p { saving = true })

-- The end of `submit`: every request returned, or one threw.
unfoldable pub submit_done : Bool → RolesPage → RolesPage
submit_done true p = record p {
  name = "";
  key = "";
  tenant_id = "";
  create_perms = [];
  show_form = false;
  saving = false;
}
submit_done false p = record p { saving = false }

-- `createDisabled`
unfoldable pub create_disabled : RolesPage → Bool
create_disabled p = p.saving || (p.is_platform && is_custom p.role_view) && not (truthy p.tenant_id)

-- `startEdit` up to its `await`, and after it; `none` is a failure.
unfoldable pub start_edit : Role → RolesPage → RoleRequest × RolesPage
start_edit item p =
    (read_role item.id, record p { editing_id = some item.id; edit_name = item.name })

unfoldable pub edit_loaded : Option RoleDetail → RolesPage → RolesPage
edit_loaded none p = record p { edit_perms = [] }
edit_loaded (some detail) p = record p { edit_perms = dedupe (map (λ q. q.id) detail.permissions) }

-- `saveEdit`: its two requests, the second sent once the first has returned.
unfoldable pub save_edit : String → RolesPage → (RoleRequest × RoleRequest) × RolesPage
save_edit id p =
    ((rename_role id p.edit_name, put_permissions id p.edit_perms), record p { saving = true })

unfoldable pub save_edit_done : Bool → RolesPage → RolesPage
save_edit_done true p = record p { editing_id = none; saving = false }
save_edit_done false p = record p { saving = false }

-- `viewRole` after its `await`.
unfoldable pub role_viewed : String → Option RoleDetail → RolesPage → RolesPage
role_viewed id none p = p
role_viewed id (some detail) p = record p { view_detail = some detail; viewing_id = some id }

-- The body of `togglePerm` and `toggleCreatePerm`.
unfoldable pub toggle_id : String → List String → List String
toggle_id pid prev =
    if contains prev pid then filter (λ c. not (c === pid)) prev else prev ++ pid ∷ []

unfoldable pub toggle_perm : String → RolesPage → RolesPage
toggle_perm pid p = record p { edit_perms = toggle_id pid p.edit_perms }

unfoldable pub toggle_create_perm : String → RolesPage → RolesPage
toggle_create_perm pid p = record p { create_perms = toggle_id pid p.create_perms }
