-- ===== src/Send/Submit.antt =====
-- SendNotificationPage.tsx: `activeChannelOptions`, `buildTarget` and `submit`. What `submit` sends is
pub mod Laws
-- a value; its reply comes back to `sent`.
use notification_platform.Base.{
  ℕ, String, Bool, true, false, ◌&&◌, ◌||◌, not, Option, none, some, List, [], ◌∷◌, map, ◌≡◌, refl,
  ◌≢◌, ◌↔◌, ◌⊎◌, inl, inr, arith, contains, contains-Member, Member, find, Dict, get, set, get-set,
  blank, eq_iff, if◌then◌else◌, ◌==◌, ◌===◌, Bool-cases, Option-cases,
}
use notification_platform.Api.Errors.{ApiError, Thrown, api, other, foreign, get_error_message}
use notification_platform.Send.Form.{
  RecipientMode, contact, group, direct_email, direct_phone, fcm_token, fcm_topic, websocket_user,
  in_app_user, Form, ContactOption, EmailOptions, SmsOptions, FcmOptions, WebsocketOptions,
  InAppOptions,
}
use notification_platform.Send.Validate.{validate_form}
use notification_platform.Send.Validate.Ready.{IsReady, validate_form_iff}

-- `options` with a key only for a selected channel.
pub record ActiveOptions : Type 0 where
  pub email : Option EmailOptions
  pub sms : Option SmsOptions
  pub fcm : Option FcmOptions
  pub websocket : Option WebsocketOptions
  pub in_app : Option InAppOptions

abbrev pub only_if : {A : Type 0} → Bool → A → Option A
only_if b a = if b then some a else none

unfoldable pub active_channel_options : Form → ActiveOptions
active_channel_options f = record {
  email = only_if (contains f.selected_channels "email") f.channel_options.email;
  sms = only_if (contains f.selected_channels "sms") f.channel_options.sms;
  fcm = only_if (contains f.selected_channels "fcm") f.channel_options.fcm;
  websocket = only_if (contains f.selected_channels "websocket") f.channel_options.websocket;
  in_app = only_if (contains f.selected_channels "in_app") f.channel_options.in_app;
}

-- The recipient is an object with text fields.
pub record Target : Type 0 where
  pub type : String
  pub id : Option String
  pub recipient : Dict String

abbrev email_of : Option ContactOption → String
email_of none = ""
email_of (some c) = c.email

abbrev phone_of : Option ContactOption → String
phone_of none = ""
phone_of (some c) = c.phone

abbrev direct : String → String → String → Target
direct type key value = record { type = type; id = none; recipient = (key, value) ∷ [] }

abbrev contact_of : Form → Option ContactOption
contact_of f = find (λ x. x.id === f.contact_id) f.contacts

-- The `switch` of `buildTarget`.
abbrev pub target_of : RecipientMode → Form → Target
target_of contact f = record {
  type = "contact";
  id = some f.contact_id;
  recipient = ("email", email_of (contact_of f)) ∷ ("phone", phone_of (contact_of f)) ∷ [];
}
target_of group f = record { type = "group"; id = some f.group_id; recipient = [] }
target_of direct_email f = direct "direct_email" "email" f.recipient_value
target_of direct_phone f = direct "direct_phone" "phone" f.recipient_value
target_of fcm_token f = direct "fcm_token" "fcm_token" f.recipient_value
target_of fcm_topic f = direct "fcm_topic" "fcm_topic" f.recipient_value
target_of websocket_user f = direct "websocket_user" "external_user_id" f.recipient_value
target_of in_app_user f = direct "in_app_user" "external_user_id" f.recipient_value

unfoldable pub build_target : Form → Target
build_target f = target_of f.mode f

-- A field of `data`: a template value, or the channel options.
pub data Datum : Type 0 where
  value : String → Datum
  overrides : ActiveOptions → Datum

-- `{ ...templateValues, channel_options: activeChannelOptions }`
unfoldable pub data_of : Form → Dict Datum
data_of f =
    set "channel_options" (overrides (active_channel_options f))
      (map (λ e. (e.0, value e.1)) f.template_values)

-- The body of the request.
pub record Payload : Type 0 where
  pub event : String
  pub channels : List String
  pub template : String
  pub target : Target
  pub fields : Dict Datum
  pub priority : ℕ
  pub schedule : Option String
  pub tenant_id : Option String

unfoldable pub payload_of : Form → Payload
payload_of f = record {
  event = f.event;
  channels = f.selected_channels;
  template = f.template_key;
  target = build_target f;
  fields = data_of f;
  priority = f.priority;
  schedule = only_if (not (blank f.send_at)) f.send_at;
  tenant_id = only_if f.is_platform f.tenant_id;
}

-- `submit` up to its `await`: the request, if there is one, and the form.
unfoldable pub submit : Form → Option Payload × Form
unfolding payload_of
submit f =
    let checked = validate_form (record f { error = "" }) in
    if checked.0
    then (some (payload_of checked.1), record checked.1 { sending = true })
    else (none, checked.1)

pub data Notice : Type 0 where
  quiet : Notice
  success : String → String → Notice
  error : String → String → Notice

-- What comes back: the id of the notification, or what was thrown.
pub data SendReply : Type 0 where
  queued : String → SendReply
  threw : Thrown → SendReply

abbrev pub is_rejection : Thrown → Bool
is_rejection (api e) = e.status == 400 || e.status == 422
is_rejection thrown = false

abbrev detail_of : Thrown → String
detail_of (api e) = e.detail
detail_of thrown = ""

-- `submit` after its `await`; `show` prints a number.
unfoldable pub sent : (ℕ → String) → SendReply → Form → Notice × Form
sent show (queued id) f = (success "Notification queued" id, record f { sending = false })
sent show (threw err) f =
    if is_rejection err then (quiet, record f { error = detail_of err; sending = false }) else (
      error "Unable to queue notification" (get_error_message show err "Send failed"),
      record f { sending = false },
    )
