-- ===== src/Audience/Contacts.antt =====
-- pages/contacts/ContactsPage.tsx: the state of the page and its handlers, with the toasts left out
-- and the list's query in Listing. A request that a handler sends is a value, and what follows its
-- reply is a function of its own.
use notification_platform.Base.{
  String, Bool, true, false, not, ◌&&◌, ◌||◌, Option, none, some, List, [], truthy, blank, trim,
  text_or_nil, if◌then◌else◌,
}
use notification_platform.Widgets.Paging.{PaginationMeta}

pub record Contact : Type 0 where
  pub id : String
  pub tenant_id : String
  pub name : String
  pub email : String
  pub phone : String
  pub status : String
  pub external_ref : Option String

pub data Mode : Type 0 where
  shut create : Mode
  view edit delete : Contact → Mode

pub record FormData : Type 0 where
  pub tenant_id : String
  pub name : String
  pub email : String
  pub phone : String
  pub external_ref : String

unfoldable pub empty_form : FormData
empty_form = record { tenant_id = ""; name = ""; email = ""; phone = ""; external_ref = "" }

pub record ContactsPage : Type 0 where
  pub is_platform : Bool
  pub items : List Contact
  pub error : String
  pub loading : Bool
  pub saving : Bool
  pub search : String
  pub tenant_filter : String
  pub mode : Mode
  pub form : FormData
  pub meta : Option PaginationMeta

unfoldable pub initial : Bool → ContactsPage
unfolding empty_form
initial is_platform = record {
  is_platform = is_platform;
  items = [];
  error = "";
  loading = true;
  saving = false;
  search = "";
  tenant_filter = "";
  mode = shut;
  form = empty_form;
  meta = none;
}

-- `load` up to the reply, and its two ends.
unfoldable pub load : ContactsPage → ContactsPage
load p = record p { loading = true; error = "" }

unfoldable pub loaded : List Contact → Option PaginationMeta → ContactsPage → ContactsPage
loaded items meta p = record p { items = items; meta = meta; loading = false }

unfoldable pub load_failed : ContactsPage → ContactsPage
load_failed p = record p { loading = false }

-- `edit` and `create`
unfoldable pub open_edit : Contact → ContactsPage → ContactsPage
open_edit c p = record p {
  form = record {
    tenant_id = c.tenant_id;
    name = c.name;
    email = c.email;
    phone = c.phone;
    external_ref = text_or_nil c.external_ref;
  };
  mode = edit c;
  error = "";
}

unfoldable pub open_create : ContactsPage → ContactsPage
unfolding empty_form
open_create p = record p {
  form = record empty_form { tenant_id = p.tenant_filter };
  mode = create;
  error = "";
}

abbrev pub is_create : Mode → Bool
is_create create = true
is_create mode = false

-- The condition under which `save` stops.
unfoldable pub incomplete : ContactsPage → Bool
incomplete p =
    blank p.form.name
    || blank p.form.email && blank p.form.phone
    || p.is_platform && is_create p.mode && not (truthy p.form.tenant_id)

-- The body of the request; an undefined key is left out of it.
pub record ContactBody : Type 0 where
  pub tenant_id : String
  pub name : String
  pub email : String
  pub phone : String
  pub external_ref : Option String

-- `s || undefined`
abbrev pub text_or_undefined : String → Option String
text_or_undefined String.[] = none
text_or_undefined (String.◌∷◌ c s) = some (String.◌∷◌ c s)

unfoldable pub payload : FormData → ContactBody
payload form = record {
  tenant_id = form.tenant_id;
  name = trim form.name;
  email = trim form.email;
  phone = trim form.phone;
  external_ref = text_or_undefined (trim form.external_ref);
}

pub data ContactRequest : Type 0 where
  update : String → ContactBody → ContactRequest
  add : ContactBody → ContactRequest
  remove : String → ContactRequest

abbrev pub request_of : Mode → ContactBody → ContactRequest
request_of (edit c) body = update c.id body
request_of mode body = add body

-- `save` up to its `await`.
unfoldable pub save : ContactsPage → Option ContactRequest × ContactsPage
unfolding incomplete payload
save p =
    if incomplete p
    then (
      none,
      record p { error = "Name, tenant, and at least one delivery address are required." },
    )
    else (some (request_of p.mode (payload p.form)), record p { saving = true; error = "" })

-- `remove` up to its `await`.
unfoldable pub remove_contact : Contact → ContactsPage → ContactRequest × ContactsPage
remove_contact c p = (remove c.id, record p { saving = true; error = "" })

-- The end of both: the request returned and the list is loaded again, or it threw with a message.
unfoldable pub request_done : Option String → ContactsPage → ContactsPage
unfolding load
request_done none p = record (load (record p { mode = shut })) { saving = false }
request_done (some message) p = record p { error = message; saving = false }
