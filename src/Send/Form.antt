-- ===== src/Send/Form.antt =====
-- SendNotificationPage.tsx: the state of the form, its handlers and its effects. Styles, labels and
-- the preview panel are left out; times are texts.
use Prim.Native.String
use notification_platform.Base.{
  length, ◌==◌, ℕ, String, Bool, false, not, ◌&&◌, Option, none, some, List, [], ◌∷◌, ◌++◌, map,
  filter, find, contains, Dict, get, set, remove, ◌===◌, if◌then◌else◌, truthy, text_or_nil,
}
use notification_platform.Send.Template.{template_variables, dedupe}

pub record ContactOption : Type 0 where
  pub id : String
  pub name : String
  pub email : String
  pub phone : String

pub record GroupOption : Type 0 where
  pub id : String
  pub name : String

pub record TemplateOption : Type 0 where
  pub id : String
  pub template_key : String
  pub channel : String
  pub subject : String
  pub body : String

pub record ChannelOption : Type 0 where
  pub channel : String
  pub enabled : Bool

pub data RecipientMode : Type 0 where
  contact group direct_email direct_phone fcm_token fcm_topic websocket_user in_app_user :
      RecipientMode

pub record EmailOptions : Type 0 where
  pub from_name : String
  pub from_email : String
  pub reply_to : String
  pub preheader : String

pub record SmsOptions : Type 0 where
  pub sender_id : String
  pub unicode : Bool
  pub callback_url : String

pub record FcmOptions : Type 0 where
  pub title : String
  pub image_url : String
  pub click_action : String
  pub collapse_key : String

pub record WebsocketOptions : Type 0 where
  pub event_name : String
  pub room : String

pub record InAppOptions : Type 0 where
  pub title : String
  pub category : String
  pub expires_at : String

pub record ChannelOptions : Type 0 where
  pub email : EmailOptions
  pub sms : SmsOptions
  pub fcm : FcmOptions
  pub websocket : WebsocketOptions
  pub in_app : InAppOptions

unfoldable pub empty_channel_options : ChannelOptions
empty_channel_options = record {
  email = record { from_name = ""; from_email = ""; reply_to = ""; preheader = "" };
  sms = record { sender_id = ""; unicode = false; callback_url = "" };
  fcm = record { title = ""; image_url = ""; click_action = ""; collapse_key = "" };
  websocket = record { event_name = ""; room = "" };
  in_app = record { title = ""; category = ""; expires_at = "" };
}

pub record Form : Type 0 where
  pub is_platform : Bool
  pub tenant_id : String
  pub contacts : List ContactOption
  pub groups : List GroupOption
  pub templates : List TemplateOption
  pub available_channels : List String
  pub mode : RecipientMode
  pub recipient_value : String
  pub contact_id : String
  pub group_id : String
  pub event : String
  pub selected_channels : List String
  pub template_key : String
  pub template_values : Dict String
  pub priority : ℕ
  pub send_at : String
  pub error : String
  pub field_errors : Dict String
  pub channel_options : ChannelOptions
  pub sending : Bool

-- The form as the page opens it.
unfoldable pub opened : Bool → String → Form
opened is_platform my_tenant_id = record {
  is_platform = is_platform;
  tenant_id = if is_platform then "" else my_tenant_id;
  contacts = [];
  groups = [];
  templates = [];
  available_channels = [];
  mode = direct_email;
  recipient_value = "";
  contact_id = "";
  group_id = "";
  event = "";
  selected_channels = "email" ∷ [];
  template_key = "";
  template_values = [];
  priority = 5;
  send_at = "";
  error = "";
  field_errors = [];
  channel_options = empty_channel_options;
  sending = false;
}

unfoldable pub selected_template : Form → Option TemplateOption
selected_template f = find (λ t. t.template_key === f.template_key) f.templates

abbrev subject_of : Option TemplateOption → String
subject_of none = ""
subject_of (some t) = t.subject

abbrev body_of : Option TemplateOption → String
body_of none = ""
body_of (some t) = t.body

-- `templateVariables`
unfoldable pub variables : Form → List String
variables f = template_variables (subject_of (selected_template f)) (body_of (selected_template f))

-- The effect on `availableChannels`.
unfoldable pub keep_available : Form → Form
keep_available f = record f {
  selected_channels = filter (λ c. contains f.available_channels c) f.selected_channels;
}

-- The loop of the effect on `templateVariables`.
unfoldable pub next_values : List String → Dict String → Dict String → Dict String
next_values [] current next = next
next_values (key ∷ keys) current next =
    next_values keys current (set key (text_or_nil (get key current)) next)

unfoldable pub reset_values : Form → Form
unfolding next_values
reset_values f = record f { template_values = next_values (variables f) f.template_values [] }

abbrev pub add_channel : String → List String → List String
add_channel c current = if contains current c then current else current ++ c ∷ []

-- The effect on `selectedTemplate`, `availableChannels` and `event`.
unfoldable pub follow_template : Form → Form
follow_template f = elim (selected_template f) [
  | none ↦ f
  | some t ↦ record f {
    selected_channels =
        if truthy t.channel && contains f.available_channels t.channel
        then add_channel t.channel f.selected_channels
        else f.selected_channels;
    event = if truthy f.event then f.event else t.template_key;
  }
]

-- The reply of the channel list, or its failure, and the effects that it sets off.
unfoldable pub load_channels : List ChannelOption → Form → Form
unfolding keep_available
load_channels options f = follow_template (
    keep_available (record f {
      available_channels = dedupe (map (λ c. c.channel) (filter (λ c. c.enabled) options));
    }))

unfoldable pub lose_channels : Form → Form
unfolding keep_available
lose_channels f = follow_template (keep_available (record f { available_channels = [] }))

-- The reply of the template list, and the choice of a template.
unfoldable pub load_templates : List TemplateOption → Form → Form
load_templates templates f = follow_template (reset_values (record f { templates = templates }))

unfoldable pub clear_field_error : String → Form → Form
clear_field_error name f =
    if truthy (text_or_nil (get name f.field_errors))
    then record f { field_errors = remove name f.field_errors }
    else f

-- An unchanged key or event sets off no effect.
unfoldable pub choose_template : String → Form → Form
choose_template key f = clear_field_error "template" (
    if key === f.template_key
    then f
    else follow_template (reset_values (record f { template_key = key })))

-- Typing in the event field.
unfoldable pub type_event : String → Form → Form
type_event event f =
    clear_field_error "event"
      (if event === f.event then f else follow_template (record f { event = event }))

unfoldable pub toggle_channel : String → Form → Form
toggle_channel ch f = record f {
  selected_channels =
      if contains f.selected_channels ch
      then filter (λ c. not (c === ch)) f.selected_channels
      else f.selected_channels ++ ch ∷ [];
}

-- The page after the effects of its first rendering.
unfoldable pub mounted_form : Bool → String → Form
unfolding keep_available reset_values follow_template
mounted_form is_platform my_tenant_id =
    follow_template (reset_values (keep_available (opened is_platform my_tenant_id)))

-- The button above the list of channels.
unfoldable pub toggle_all : Form → Form
toggle_all f = record f {
  selected_channels =
      if length f.selected_channels == length f.available_channels
      then []
      else f.available_channels;
}

-- The other inputs of the form.
pub data Edit : Type 0 where
  choose_tenant choose_contact choose_group type_recipient type_send_at : String → Edit
  choose_mode : RecipientMode → Edit
  type_value : String → String → Edit
  type_priority : ℕ → Edit
  change_options : ChannelOptions → Edit

unfoldable pub edit : Edit → Form → Form
unfolding clear_field_error
edit (choose_tenant v) f = clear_field_error "tenant" (record f { tenant_id = v })
edit (choose_contact v) f = clear_field_error "recipient" (record f { contact_id = v })
edit (choose_group v) f = clear_field_error "recipient" (record f { group_id = v })
edit (type_recipient v) f = clear_field_error "recipient" (record f { recipient_value = v })
edit (type_send_at v) f = record f { send_at = v }
edit (choose_mode m) f = clear_field_error "recipient" (record f { mode = m })
edit (type_value key v) f =
    clear_field_error (String.◌++◌ "var." key)
      (record f { template_values = set key v f.template_values })
edit (type_priority n) f = record f { priority = n }
edit (change_options o) f = record f { channel_options = o }
