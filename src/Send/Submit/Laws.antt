-- ===== src/Send/Submit/Laws.antt =====
-- What `submit` of SendNotificationPage.tsx sends, and what it makes of the reply.
use notification_platform.Base.{
  ℕ, String, true, false, Option, none, some, [], ◌∷◌, map, ◌≡◌, refl, ap, ◌∙◌, ◌≢◌, ◌↔◌, ◌⊎◌, inl,
  inr, arith, Dict, get, get-set, if◌then◌else◌, ◌===◌, Bool-cases,
}
use notification_platform.Api.Errors.{ApiError, api, other, foreign}
use notification_platform.Send.Form.{
  Form, RecipientMode, contact, group, direct_email, direct_phone, fcm_token, fcm_topic,
  websocket_user, in_app_user, selected_template, variables,
}
use notification_platform.Send.Validate.{validate_form, field_errors_of, no_errors}
use notification_platform.Send.Validate.Ready.{IsReady, HasRecipient, validate_form_iff}
use notification_platform.Send.Submit.{
  Datum, value, overrides, active_channel_options, build_target, target_of, data_of, payload_of,
  submit, quiet, SendReply, queued, threw, sent, is_rejection,
}

no_error : (d : Dict String) → no_errors d ≡ true → d ≡ []
no_error [] h = refl
no_error (e ∷ d) h = cc

-- The form that `validateForm` reads.
abbrev cleared : Form → Form
cleared f = record f { error = "" }

same_recipient :
    (f : Form) (mode : RecipientMode) → HasRecipient f mode ↔ HasRecipient (cleared f) mode
same_recipient f contact = ((λ r. r), (λ r. r))
same_recipient f group = ((λ r. r), (λ r. r))
same_recipient f mode = ((λ r. r), (λ r. r))

cleared-IsReady : (f : Form) → IsReady f ↔ IsReady (cleared f)
unfolding variables selected_template
cleared-IsReady f = (
  (λ r. record {
    tenant = r.tenant;
    event = r.event;
    channels = r.channels;
    recipient = (same_recipient f f.mode).0 r.recipient;
    template = r.template;
    values = r.values;
    from_email = r.from_email;
    reply_to = r.reply_to;
    sender_id = r.sender_id;
  }),
  (λ r. record {
    tenant = r.tenant;
    event = r.event;
    channels = r.channels;
    recipient = (same_recipient f f.mode).1 r.recipient;
    template = r.template;
    values = r.values;
    from_email = r.from_email;
    reply_to = r.reply_to;
    sender_id = r.sender_id;
  }),
)

same_target :
    (f : Form) (d : Dict String) (mode : RecipientMode)
    → target_of mode (record f { error = ""; field_errors = d }) ≡ target_of mode f
same_target f d contact = refl
same_target f d group = refl
same_target f d direct_email = refl
same_target f d direct_phone = refl
same_target f d fcm_token = refl
same_target f d fcm_topic = refl
same_target f d websocket_user = refl
same_target f d in_app_user = refl

same_payload :
    (f : Form) (d : Dict String)
    → payload_of (record f { error = ""; field_errors = d }) ≡ payload_of f
unfolding payload_of build_target data_of active_channel_options
same_payload f d = ap (λ t. record (payload_of f) { target = t }) (same_target f d f.mode)

-- Pressing the send button sends a request exactly when the form is ready. Then the request carries
-- the form's payload, the errors are cleared and the page shows that it is sending; otherwise the
-- field errors become those that `validateForm` finds, at least one, and the rest of the form stays
-- as it was, except that the last rejection is cleared.
pub submit_cases :
    (f : Form)
    → (IsReady f
        → submit f
          ≡ (some (payload_of f), record f { error = ""; field_errors = []; sending = true }))
      × (¬ IsReady f
          → ((submit f).0 ≡ none)
            × ((submit f).1 ≡ record f { error = ""; field_errors = field_errors_of (cleared f) })
            × ((submit f).1.field_errors ≢ []))
unfolding submit validate_form
submit_cases f = elim (Bool-cases (no_errors (field_errors_of (cleared f)))) [
  | inl e ↦ (
    (λ r. rw (e, no_error _ e, same_payload f []) refl),
    (λ n. absurd (n ((cleared-IsReady f).1 ((validate_form_iff (cleared f)).0 e)))),
  )
  | inr e ↦ (
    (λ r. absurd (ground (arith, (validate_form_iff (cleared f)).1 ((cleared-IsReady f).0 r)))),
    (λ n. rw e (refl, refl, λ p. absurd (ground (arith, ap no_errors p)))),
  )
]

abbrev pub values_of : Option String → Option Datum
values_of none = none
values_of (some s) = some (value s)

get-map :
    (key : String) (m : Dict String)
    → get key (map (λ e. (e.0, value e.1)) m) ≡ values_of (get key m)
unfolding get
get-map key [] = refl
get-map key ((j, v) ∷ m) = ground (arith, get-map key m)

-- The `data` of a request holds, under "channel_options", the options of the selected channels, and
-- under any other key the template value that the form has for it, and nothing else; a template
-- variable that is itself named "channel_options" is lost.
pub get-data_of :
    (f : Form) (key : String)
    → get key (data_of f) ≡ (
        if "channel_options" === key
        then some (overrides (active_channel_options f))
        else values_of (get key f.template_values))
unfolding data_of
get-data_of f key =
    get-set "channel_options" key (overrides (active_channel_options f)) _
    ∙ ap (λ v. if "channel_options" === key then some (overrides (active_channel_options f)) else v)
        (get-map key f.template_values)

rejected : (e : ApiError) → is_rejection (api e) ≡ true → (e.status ≡ 400) ⊎ (e.status ≡ 422)
rejected e h = ground arith

accepted : (e : ApiError) → is_rejection (api e) ≡ false → ¬ ((e.status ≡ 400) ⊎ (e.status ≡ 422))
accepted e h s = ground arith

abbrev api_error_or : ApiError → SendReply → ApiError
api_error_or d (threw (api e)) = e
api_error_or d reply = d

api_error : (e d : ApiError) → threw (api e) ≡ threw (api d) → e ≡ d
api_error e d q = ap (api_error_or e) q

-- After the reply the page no longer shows that it is sending. No toast appears exactly for an
-- `ApiError` of status 400 or 422, whose detail is then shown in the form; after any reply that does
-- raise a toast the form's error text is unchanged.
pub sent_cases :
    (show : ℕ → String) (reply : SendReply) (f : Form)
    → ((sent show reply f).1.sending ≡ false)
      × (((sent show reply f).0 ≡ quiet)
          ↔ ((e : ApiError) × (reply ≡ threw (api e)) × ((e.status ≡ 400) ⊎ (e.status ≡ 422))))
      × ((e : ApiError)
          → reply ≡ threw (api e)
          → (e.status ≡ 400) ⊎ (e.status ≡ 422)
          → (sent show reply f).1.error ≡ e.detail)
      × ((sent show reply f).0 ≢ quiet → (sent show reply f).1.error ≡ f.error)
unfolding sent
sent_cases show (queued id) f = (refl, ((λ q. cc), (λ h. cc (h.1))), (λ e q. cc), (λ n. refl))
sent_cases show (threw (api e)) f = elim (Bool-cases (is_rejection (api e))) [
  | inl r ↦ rw r (
    refl,
    ((λ q. (e, refl, rejected e r)), (λ h. refl)),
    (λ d q s. ap (λ x. x.detail) (api_error e d q)),
    (λ n. absurd (n refl)),
  )
  | inr r ↦ rw r (
    refl,
    ((λ q. cc), (λ h. absurd (accepted h.0 (rw (← api_error e h.0 h.1) r) h.2))),
    (λ d q s. absurd (accepted d (rw (← api_error e d q) r) s)),
    (λ n. refl),
  )
]
sent_cases show (threw (other m)) f = (refl, ((λ q. cc), (λ h. cc (h.1))), (λ e q. cc), (λ n. refl))
sent_cases show (threw foreign) f = (refl, ((λ q. cc), (λ h. cc (h.1))), (λ e q. cc), (λ n. refl))
