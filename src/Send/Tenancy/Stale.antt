-- ===== src/Send/Tenancy/Stale.antt =====
-- What a notification has of the tenant that was chosen before.
use notification_platform.Base.{
  String, true, none, some, List, [], ◌∷◌, find, ◌===◌, ◌≡◌, refl, ap, ◌≢◌, inl, inr, Dict, truthy,
  text_or_nil, get, Bool-cases,
}
use notification_platform.Send.Form.{
  RecipientMode, contact, group, direct_email, direct_phone, fcm_token, fcm_topic, websocket_user,
  in_app_user, Form, ContactOption, choose_tenant, edit, clear_field_error, selected_template,
  variables,
}
use notification_platform.Send.Validate.Ready.{IsReady, HasRecipient}
use notification_platform.Send.Submit.{submit, payload_of, build_target}
use notification_platform.Send.Submit.Laws.{submit_cases}
use notification_platform.Send.Tenancy.{load_contacts}

-- A form with another tenant, other contacts and other errors.
abbrev moved : String → List ContactOption → Dict String → Form → Form
moved b rows errors f = record f { tenant_id = b; contacts = rows; field_errors = errors }

clear_moved :
    (name : String) (f : Form)
    → clear_field_error name f ≡ record f { field_errors = (clear_field_error name f).field_errors }
unfolding clear_field_error
clear_moved name f = elim (Bool-cases (truthy (text_or_nil (get name f.field_errors)))) [
  | inl e ↦ rw e refl
  | inr e ↦ rw e refl
]

recipient_moved :
    (m : RecipientMode) (b : String) (rows : List ContactOption) (errors : Dict String) (f : Form)
    → HasRecipient f m
    → HasRecipient (moved b rows errors f) m
recipient_moved contact b rows errors f h = h
recipient_moved group b rows errors f h = h
recipient_moved direct_email b rows errors f h = h
recipient_moved direct_phone b rows errors f h = h
recipient_moved fcm_token b rows errors f h = h
recipient_moved fcm_topic b rows errors f h = h
recipient_moved websocket_user b rows errors f h = h
recipient_moved in_app_user b rows errors f h = h

moved-IsReady :
    (b : String) (rows : List ContactOption) (errors : Dict String) (f : Form)
    → b ≢ ""
    → IsReady f
    → IsReady (moved b rows errors f)
unfolding selected_template variables
moved-IsReady b rows errors f n r = record {
  tenant = λ p. n;
  event = r.event;
  channels = r.channels;
  recipient = recipient_moved f.mode b rows errors f r.recipient;
  template = r.template;
  values = r.values;
  from_email = r.from_email;
  reply_to = r.reply_to;
  sender_id = r.sender_id;
}

-- A platform administrator has filled in a notification to a contact of one tenant, chooses another
-- tenant, and its contacts, which the contact is not among, arrive. The form is still ready: it is
-- sent for the other tenant, to the id of the contact of the first, with an empty address and an
-- empty phone number.
pub submit-choose_tenant :
    (b : String) (rows : List ContactOption) (f : Form)
    → b ≢ ""
    → f.is_platform ≡ true
    → f.mode ≡ contact
    → find (λ c. c.id === f.contact_id) rows ≡ none
    → IsReady f
    → let g = load_contacts rows (edit (choose_tenant b) f) in
      ((submit g).0 ≡ some (payload_of g))
      × ((payload_of g).tenant_id ≡ some b)
      × ((payload_of g).target.id ≡ some f.contact_id)
      × ((payload_of g).target.recipient ≡ ("email", "") ∷ ("phone", "") ∷ [])
unfolding load_contacts edit payload_of build_target
submit-choose_tenant b rows f n p m none_found r =
    let errors = (clear_field_error "tenant" (record f { tenant_id = b })).field_errors in
    rw (clear_moved "tenant" (record f { tenant_id = b })) (
      ap (λ s. s.0) ((submit_cases (moved b rows errors f)).0 (moved-IsReady b rows errors f n r)),
      rw p refl,
      rw m refl,
      rw (m, none_found) refl,
    )
