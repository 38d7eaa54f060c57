-- ===== src/Logs/Permissions.antt =====
-- pages/permissions/PermissionsPage.tsx: the roles of a row and the categories of the page. `J` is the
-- type of JSON values; the parser of JSON and `atob` are parameters.
use notification_platform.Base.{
  String, Bool, true, false, Option, none, some, List, [], ◌==◌, or_text, if◌then◌else◌, Dict, map,
}
use Prim.Native.Char.{code}
use notification_platform.Widgets.Paging.{PaginationMeta}
use notification_platform.Roles.Grouping.{group_by}

-- What the server sends as the roles of a permission: an array, a text, or neither.
pub data RolesField (J : Type 0) : Type 0 where
  array : J → RolesField J
  text : String → RolesField J
  other : RolesField J

module _ {J : Type 0} (nothing : J) (parse : String → Option J)
    (atob : String → Option String) where
  -- `JSON.parse(atob(roles))`, `[]` if either throws.
  abbrev decoded : Option String → J
  decoded none = nothing
  decoded (some s) = elim (parse s) [ none ↦ nothing | some v ↦ v ]

  -- The roles that the page keeps, where `nothing` is the empty array.
  unfoldable pub roles_of : RolesField J → J
  roles_of (array v) = v
  roles_of (text s) = elim (parse s) [ none ↦ decoded (atob s) | some v ↦ v ]
  roles_of other = nothing

-- `s.split('.')[0]`
unfoldable pub before_dot : String → String
before_dot String.[] = ""
before_dot (String.◌∷◌ c s) =
    let rest = before_dot s in if code c == b'.' then "" else String.◌∷◌ c rest

unfoldable pub permission_area : String → String
unfolding before_dot
permission_area key = or_text (before_dot key) "other"

pub record PermissionRow (J : Type 0) : Type 0 where
  pub id : String
  pub key : String
  pub description : String
  pub roles : J

pub record PermissionsPage (J : Type 0) : Type 0 where
  pub items : List (PermissionRow J)
  pub error : String
  pub loading : Bool
  pub meta : Option PaginationMeta

-- A row as the server sends it.
pub record SentRow (J : Type 0) : Type 0 where
  pub id : String
  pub key : String
  pub description : String
  pub roles : RolesField J

module _ {J : Type 0} where
  unfoldable pub initial : PermissionsPage J
  initial = record { items = []; error = ""; loading = true; meta = none }

  -- The effect up to the reply, and its end when it throws.
  unfoldable pub load : PermissionsPage J → PermissionsPage J
  load p = record p { loading = true }

  unfoldable pub load_failed : String → PermissionsPage J → PermissionsPage J
  load_failed message p = record p { error = message; loading = false }

  -- `categories`
  unfoldable pub categories : PermissionsPage J → Dict (List (PermissionRow J))
  unfolding permission_area group_by
  categories p = group_by (λ row. permission_area row.key) p.items

module _ {J : Type 0} (nothing : J) (parse : String → Option J)
    (atob : String → Option String) where
  unfoldable pub row_of : SentRow J → PermissionRow J
  unfolding roles_of
  row_of r = record {
    id = r.id;
    key = r.key;
    description = r.description;
    roles = roles_of nothing parse atob r.roles;
  }

  -- The effect's end when the reply comes.
  unfoldable pub loaded :
      List (SentRow J) → Option PaginationMeta → PermissionsPage J → PermissionsPage J
  unfolding row_of
  loaded rows meta p = record p { items = map row_of rows; meta = meta; loading = false }
