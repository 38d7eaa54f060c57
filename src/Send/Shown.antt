-- ===== src/Send/Shown.antt =====
-- SendNotificationPage.tsx: the error messages that the page and `ChannelConfiguration` draw, and where.
pub mod Refused
pub mod Reported
use Prim.Native.String
use notification_platform.Base.{
  String, Bool, true, false, not, ◌&&◌, Option, none, some, List, [], ◌∷◌, ◌++◌, map, Dict, get,
  contains, if◌then◌else◌, truthy, text_or_nil,
}
use notification_platform.Send.Form.{Form, TemplateOption, selected_template, variables}
use notification_platform.Send.Validate.{validate_form}
use notification_platform.Send.Tenancy.{SendPage, effective_tenant}

-- The overrides of the selected channels.
unfoldable pub channel_places : List String → List String
channel_places [] = []
channel_places (c ∷ cs) =
    (if contains (c ∷ cs) "email" then "email_from" ∷ "email_reply" ∷ [] else [])
    ++ (if contains (c ∷ cs) "sms" then "sms_sender" ∷ [] else [])

-- The fields that wait for a tenant and its data; each mode has a field for the recipient.
unfoldable pub audience_places : SendPage → List String
unfolding effective_tenant
audience_places p =
    if truthy (effective_tenant p) && not p.loading_tenant
    then "recipient" ∷ "template" ∷ "channels" ∷ channel_places p.form.selected_channels
    else []

abbrev pub value_places : Option TemplateOption → List String → List String
value_places none keys = []
value_places (some t) keys = map (λ key. String.◌++◌ "var." key) keys

abbrev pub tenant_places : Bool → List String
tenant_places is_platform = if is_platform then "tenant" ∷ [] else []

abbrev pub message_places : Form → List String
message_places f = "event" ∷ value_places (selected_template f) (variables f)

-- The keys of `fieldErrors` that have a place on the page.
unfoldable pub places : SendPage → List String
unfolding audience_places
places p = tenant_places p.form.is_platform ++ (audience_places p ++ message_places p.form)

-- The messages that are drawn at these places.
unfoldable pub messages : List String → Dict String → List String
messages [] errors = []
messages (key ∷ keys) errors =
    let message = text_or_nil (get key errors) in
    if truthy message then message ∷ messages keys errors else messages keys errors

unfoldable pub shown_errors : SendPage → List String
unfolding places messages
shown_errors p = messages (places p) p.form.field_errors

-- The page after `validateForm`.
unfoldable pub checked : SendPage → SendPage
unfolding validate_form
checked p = record p { form = (validate_form p.form).1 }
