-- ===== src/Groups/Page.antt =====
-- GroupsPage.tsx: the state of the page and its handlers. Toasts and the confirmation are left out,
-- and the list's query is that of Listing; a request that a handler sends is a value, and what
-- follows its reply is a function of its own.
use notification_platform.Base.{
  String, Bool, true, false, not, Option, none, some, List, [], ◌∷◌, ◌||◌, filter, find, truthy,
  ◌===◌, if◌then◌else◌,
}
use notification_platform.Widgets.Paging.{PaginationMeta}

pub record Group : Type 0 where
  pub id : String
  pub tenant_id : String
  pub name : String
  pub description : String
  pub status : String

-- `Contact` and `Member`, which have the same fields.
pub record Person : Type 0 where
  pub id : String
  pub name : String
  pub email : String
  pub phone : String

pub record GroupsPage : Type 0 where
  pub items : List Group
  pub contacts : List Person
  pub search : String
  pub show_form : Bool
  pub form_error : String
  pub name : String
  pub description : String
  pub saving : Bool
  pub expanded : Option String
  pub members : List Person
  pub show_add_member : Option String
  pub loading : Bool
  pub tenant_filter : String
  pub meta : Option PaginationMeta

unfoldable pub initial : GroupsPage
initial = record {
  items = [];
  contacts = [];
  search = "";
  show_form = false;
  form_error = "";
  name = "";
  description = "";
  saving = false;
  expanded = none;
  members = [];
  show_add_member = none;
  loading = true;
  tenant_filter = "";
  meta = none;
}

-- `load` up to the reply, and its two ends.
unfoldable pub load : GroupsPage → GroupsPage
load p = record p { loading = true }

unfoldable pub loaded : List Group → Option PaginationMeta → GroupsPage → GroupsPage
loaded items meta p = record p { items = items; meta = meta; loading = false }

unfoldable pub load_failed : GroupsPage → GroupsPage
load_failed p = record p { loading = false }

-- `loadContacts`
unfoldable pub contacts_loaded : List Person → GroupsPage → GroupsPage
contacts_loaded reply p = record p { contacts = reply }

pub data GroupRequest : Type 0 where
  create : String → String → GroupRequest
  delete load_members : String → GroupRequest
  add_to remove_from : String → String → GroupRequest

-- `loadMembers`: the reply is shown whatever group is expanded by then; a failure changes nothing.
unfoldable pub members_loaded : List Person → GroupsPage → GroupsPage
members_loaded reply p = record p { members = reply }

abbrev pub is_expanded : String → Option String → Bool
is_expanded id none = false
is_expanded id (some e) = e === id

-- `toggleGroup`, with the request it sends.
unfoldable pub toggle_group : String → GroupsPage → Option GroupRequest × GroupsPage
toggle_group id p =
    if is_expanded id p.expanded
    then (none, record p { expanded = none })
    else (some (load_members id), record p { expanded = some id })

-- `onClose` of the modal of the members.
unfoldable pub close_members : GroupsPage → GroupsPage
close_members p = record p { expanded = none; show_add_member = none }

-- The button `Create group`.
unfoldable pub toggle_form : GroupsPage → GroupsPage
toggle_form p = record p { form_error = ""; show_form = not p.show_form }

-- `submit` up to its `await`, and its two ends.
unfoldable pub submit : GroupsPage → GroupRequest × GroupsPage
submit p = (create p.name p.description, record p { saving = true; form_error = "" })

unfoldable pub submitted : Option String → GroupsPage → GroupsPage
unfolding load
submitted none p = record (load p) {
  name = "";
  description = "";
  show_form = false;
  saving = false;
}
submitted (some message) p = record p { form_error = message; saving = false }

-- `remove`: its request, and its end, with the error if it threw.
unfoldable pub remove_group : String → GroupRequest
remove_group id = delete id

unfoldable pub removed : Option String → GroupsPage → GroupsPage
unfolding load
removed none p = load p
removed (some message) p = p

-- `addMember` and `removeMember`: their requests, and the one that follows when they have returned.
unfoldable pub add_member : String → String → GroupRequest
add_member group contact = add_to group contact

unfoldable pub remove_member : String → String → GroupRequest
remove_member group contact = remove_from group contact

unfoldable pub member_changed : String → Option String → Option GroupRequest
member_changed group none = some (load_members group)
member_changed group (some message) = none

abbrev with_id : Option String → List Group → Option Group
with_id none items = none
with_id (some id) items = find (λ item. item.id === id) items

-- `expandedGroup`, whose modal is shown.
unfoldable pub expanded_group : GroupsPage → Option Group
expanded_group p = with_id p.expanded p.items

-- The controls of that modal for the group it shows: `Add member`, and a choice of a contact, of
-- those that are not members yet.
unfoldable pub toggle_add : Group → GroupsPage → GroupsPage
toggle_add g p = record p {
  show_add_member = elim p.show_add_member [
    | none ↦ some g.id
    | some shown ↦ if truthy shown then none else some g.id
  ];
}

abbrev is_in : List Person → Person → Bool
is_in [] c = false
is_in (m ∷ ms) c = m.id === c.id || is_in ms c

unfoldable pub addable : GroupsPage → List Person
addable p = filter (λ c. not (is_in p.members c)) p.contacts

unfoldable pub choose_contact : Group → String → GroupsPage → GroupRequest × GroupsPage
unfolding add_member
choose_contact g contact p = (add_member g.id contact, record p { show_add_member = none })
