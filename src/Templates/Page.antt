-- ===== src/Templates/Page.antt =====
-- TemplatesPage.tsx: the state of the page and its handlers. Toasts are left out; a request that a
-- handler sends is a value, and what follows its reply is a function of its own.
use notification_platform.Base.{
  String, Bool, true, false, not, ◌&&◌, ◌||◌, Option, none, some, List, truthy, blank, trim,
  or_text, if◌then◌else◌,
}
use notification_platform.Widgets.Paging.{PaginationMeta}

pub record Template : Type 0 where
  pub id : String
  pub tenant_id : String
  pub template_key : String
  pub channel : String
  pub subject : String
  pub body : String
  pub status : String

pub data ModalState : Type 0 where
  shut create : ModalState
  view edit delete : Template → ModalState

pub record FormValues : Type 0 where
  pub tenant_id : String
  pub template_key : String
  pub channel : String
  pub subject : String
  pub body : String

unfoldable pub empty_form : FormValues
empty_form = record {
  tenant_id = "";
  template_key = "";
  channel = "email";
  subject = "";
  body = "";
}

pub record TemplatesPage : Type 0 where
  pub is_platform : Bool
  pub items : List Template
  pub error : String
  pub loading : Bool
  pub saving : Bool
  pub search : String
  pub tenant_filter : String
  pub channel_filter : String
  pub modal : ModalState
  pub form : FormValues
  pub meta : Option PaginationMeta

-- `load` up to the reply, and its two ends.
unfoldable pub load : TemplatesPage → TemplatesPage
load p = record p { loading = true; error = "" }

unfoldable pub loaded : List Template → Option PaginationMeta → TemplatesPage → TemplatesPage
loaded items meta p = record p { items = items; meta = meta; loading = false }

unfoldable pub load_failed : TemplatesPage → TemplatesPage
load_failed p = record p { loading = false }

-- `openCreate`
unfoldable pub open_create : TemplatesPage → TemplatesPage
unfolding empty_form
open_create p = record p {
  form = record empty_form { tenant_id = p.tenant_filter };
  error = "";
  modal = create;
}

-- `openEdit`
unfoldable pub open_edit : Template → TemplatesPage → TemplatesPage
open_edit t p = record p {
  form = record {
    tenant_id = t.tenant_id;
    template_key = t.template_key;
    channel = or_text t.channel "email";
    subject = t.subject;
    body = t.body;
  };
  error = "";
  modal = edit t;
}

abbrev pub is_create : ModalState → Bool
is_create create = true
is_create modal = false

-- The condition under which `saveTemplate` stops.
unfoldable pub incomplete : TemplatesPage → Bool
incomplete p =
    blank p.form.template_key
    || not (truthy p.form.channel)
    || blank p.form.body
    || p.is_platform && is_create p.modal && not (truthy p.form.tenant_id)

-- The body of the request.
unfoldable pub payload : FormValues → FormValues
payload form = record form { template_key = trim form.template_key; subject = trim form.subject }

pub data TemplateRequest : Type 0 where
  update : String → FormValues → TemplateRequest
  add : FormValues → TemplateRequest
  remove : String → TemplateRequest

abbrev pub request_of : ModalState → FormValues → TemplateRequest
request_of (edit t) body = update t.id body
request_of modal body = add body

-- `saveTemplate` up to its `await`.
unfoldable pub save_template : TemplatesPage → Option TemplateRequest × TemplatesPage
unfolding incomplete payload
save_template p =
    if incomplete p
    then (none, record p { error = "Complete all required fields before saving." })
    else (some (request_of p.modal (payload p.form)), record p { saving = true; error = "" })

-- `removeTemplate` up to its `await`.
unfoldable pub remove_template : Template → TemplatesPage → TemplateRequest × TemplatesPage
remove_template t p = (remove t.id, record p { saving = true; error = "" })

-- The end of both: the request returned and the list is loaded again, or it threw with a message.
unfoldable pub request_done : Option String → TemplatesPage → TemplatesPage
unfolding load
request_done none p = record (load (record p { modal = shut })) { saving = false }
request_done (some message) p = record p { error = message; saving = false }
