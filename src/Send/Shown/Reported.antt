-- ===== src/Send/Shown/Reported.antt =====
-- Whether SendNotificationPage.tsx tells why it does not send.
use Prim.Native.String
use text.Mathlib.TextLemmas.{nil-append, cons-append}
use notification_platform.Base.{
  String, Bool, true, false, ◌&&◌, none, some, List, [], ◌∷◌, ◌++◌, Dict, get, contains, truthy,
  text_or_nil, ◌≡◌, refl, ap, inl, inr, get-set, eq_iff, ◌===◌, arith, Member, Member-append_left,
  Member-append_right, Member-map, Bool-cases, Option-cases, if◌then◌else◌,
}
use notification_platform.Send.Template.{template_variables, placeholder}
use notification_platform.Send.Form.{Form, selected_template, variables}
use notification_platform.Send.Tenancy.{SendPage, effective_tenant}
use notification_platform.Send.Validate.{report, report_values, field_errors_of, validate_form}
use notification_platform.Send.Shown.{
  tenant_places, message_places, channel_places, audience_places, value_places, places, messages,
  shown_errors, checked,
}

module _ (P : String → String → Type 0) where
  -- Each error has the property.
  abbrev pub Errors : Dict String → Type 0
  Errors d = (key m : String) → get key d ≡ some m → P key m

  pub report-Errors :
      (wrong : Bool) (key m : String) (d : Dict String)
      → (wrong ≡ true → P key m)
      → Errors d
      → Errors (report wrong key m d)
  unfolding report
  report-Errors false key m d p e j n h = e j n h
  report-Errors true key m d p e j n h = elim (Bool-cases (key === j)) [
    | inl same ↦
        let at : some m ≡ some n = ground (arith, get-set key j m d) in
        let k : key ≡ j = (eq_iff key j).0 same in
        let message : m ≡ n = ground arith in rw (← k, ← message) (p refl)
    | inr other ↦ e j n (ground (arith, get-set key j m d))
  ]

  pub report_values-Errors :
      (keys : List String) (values d : Dict String)
      → ((key : String)
          → Member key keys
          → P (String.◌++◌ "var." key) (String.◌++◌ key " is required."))
      → Errors d
      → Errors (report_values keys values d)
  unfolding report_values
  report_values-Errors [] values d p e = e
  report_values-Errors (key ∷ keys) values d p e =
      report_values-Errors keys values _ (λ k m. p k (inr m))
        (report-Errors _ _ _ d (λ w. p key (inl refl)) e)

-- An error that the page has a place for, with a text.
abbrev pub HasPlace : SendPage → String → String → Type 0
HasPlace p key message = Member key (places p) × (truthy message ≡ true)

pub on_top :
    (p : SendPage) (key : String)
    → Member key (tenant_places p.form.is_platform)
    → Member key (places p)
unfolding places
on_top p key m =
    Member-append_left key (tenant_places p.form.is_platform)
      (audience_places p ++ message_places p.form) m

in_audience : (p : SendPage) (key : String) → Member key (audience_places p) → Member key (places p)
unfolding places
in_audience p key m =
    Member-append_right key (tenant_places p.form.is_platform)
      (audience_places p ++ message_places p.form)
      (Member-append_left key (audience_places p) (message_places p.form) m)

below : (p : SendPage) (key : String) → Member key (message_places p.form) → Member key (places p)
unfolding places
below p key m =
    Member-append_right key (tenant_places p.form.is_platform)
      (audience_places p ++ message_places p.form)
      (Member-append_right key (audience_places p) (message_places p.form) m)

email_place :
    (cs : List String) (key : String)
    → contains cs "email" ≡ true
    → Member key ("email_from" ∷ "email_reply" ∷ [])
    → Member key (channel_places cs)
unfolding channel_places
email_place [] key h m = unfold contains in cc
email_place (c ∷ cs) key h m = rw h (Member-append_left key ("email_from" ∷ "email_reply" ∷ []) _ m)

sms_place :
    (cs : List String) (key : String)
    → contains cs "sms" ≡ true
    → Member key ("sms_sender" ∷ [])
    → Member key (channel_places cs)
unfolding channel_places
sms_place [] key h m = unfold contains in cc
sms_place (c ∷ cs) key h m =
    Member-append_right key
      (if contains (c ∷ cs) "email" then "email_from" ∷ "email_reply" ∷ [] else [])
      (if contains (c ∷ cs) "sms" then "sms_sender" ∷ [] else []) (rw h m)

no_variables : (f : Form) → selected_template f ≡ none → variables f ≡ []
unfolding variables template_variables placeholder
no_variables f e = rw e refl

-- Each variable of the template has its field.
value_place :
    (f : Form) (key : String)
    → Member key (variables f)
    → Member (String.◌++◌ "var." key) (value_places (selected_template f) (variables f))
value_place f key m = elim (Option-cases (selected_template f)) [
  | inl e ↦ absurd (rw (no_variables f e) at m)
  | inr (t, e) ↦ rw e (Member-map (λ key. String.◌++◌ "var." key) (variables f) key m)
]

pub required_text : (key : String) → truthy (String.◌++◌ key " is required.") ≡ true
required_text String.[] = ap truthy (nil-append " is required.")
required_text (String.◌∷◌ c s) = ap truthy (cons-append c s " is required.")

module _ (p : SendPage) (known : truthy (effective_tenant p) ≡ true)
    (loaded : p.loading_tenant ≡ false) where
  waiting :
      (key : String)
      → Member key ("recipient" ∷ "template" ∷ "channels" ∷ channel_places p.form.selected_channels)
      → Member key (places p)
  unfolding audience_places
  waiting key m = in_audience p key (rw (known, loaded) m)

  sent_by :
      (key : String) → Member key (channel_places p.form.selected_channels) → Member key (places p)
  sent_by key m = waiting key (inr (inr (inr m)))

  -- The errors of the tenant, the event, the channels, the recipient and the template.
  starting-Errors :
      (w v u t r q m : Bool)
      → (p.form.is_platform && m ≡ true → p.form.is_platform ≡ true)
      → Errors (HasPlace p) (
          report w "template" "Select a template to preview and send client-ready content." (
            report v "recipient" "Enter a recipient value." (
              report u "recipient" "Select a group." (
                report t "recipient" "Select a contact." (
                  report r "channels" "Select at least one delivery channel." (
                    report q "event" "Event is required." (
                      report
                        (p.form.is_platform && m)
                        "tenant"
                        "Select a tenant before sending."
                        [])))))))
  starting-Errors w v u t r q m platform =
      let next = report-Errors (HasPlace p) in
      let recipient = waiting "recipient" (inl refl) in
      next w "template" _ _ (λ e. (waiting "template" (inr (inl refl)), refl))
        (next v "recipient" _ _ (λ e. (recipient, refl))
          (next u "recipient" _ _ (λ e. (recipient, refl))
            (next t "recipient" _ _ (λ e. (recipient, refl))
              (next r "channels" _ _ (λ e. (waiting "channels" (inr (inr (inl refl))), refl))
                (next q "event" _ _ (λ e. (below p "event" (inl refl), refl))
                  (next (p.form.is_platform && m) "tenant" _ []
                    (λ e. (on_top p "tenant" (rw (platform e) (inl refl)), refl))
                    (λ j n h. unfold get in cc)))))))

  -- Every error that `validateForm` finds has a place and a text.
  field_errors_of-HasPlace : Errors (HasPlace p) (field_errors_of p.form)
  unfolding field_errors_of
  field_errors_of-HasPlace =
      let P = HasPlace p in
      let f = p.form in
      let next = report-Errors P in
      let sms = sms_place f.selected_channels in
      let email = email_place f.selected_channels in
      next _ "sms_sender" _ _ (λ w. (sent_by _ (sms _ (ground arith) (inl refl)), refl))
        (next _ "email_reply" _ _ (λ w. (sent_by _ (email _ (ground arith) (inr (inl refl))), refl))
          (next _ "email_from" _ _ (λ w. (sent_by _ (email _ (ground arith) (inl refl)), refl))
            (report_values-Errors P (variables f) f.template_values _
              (λ key m. (below p _ (inr (value_place f key m)), required_text key))
              (starting-Errors _ _ _ _ _ _ _ (λ e. ground arith)))))

Member-messages :
    (key m : String) (keys : List String) (errors : Dict String)
    → Member key keys
    → get key errors ≡ some m
    → truthy m ≡ true
    → Member m (messages keys errors)
unfolding messages
Member-messages key m [] errors k g t = absurd k
Member-messages key m (j ∷ keys) errors (inl e) g t =
    let h : get j errors ≡ some m = rw e g in rw (h, t) (inl refl)
Member-messages key m (j ∷ keys) errors (inr k) g t =
    let rest = Member-messages key m keys errors k g t in
    elim (Bool-cases (truthy (text_or_nil (get j errors)))) [
      | inl e ↦ rw e (inr rest)
      | inr e ↦ rw e rest
    ]

places-checked : (p : SendPage) → places (checked p) ≡ places p
unfolding places checked validate_form selected_template variables
places-checked p = refl

-- A message with a place on the page is drawn after the check.
pub checked-shown :
    (p : SendPage) (key m : String)
    → get key (field_errors_of p.form) ≡ some m
    → HasPlace p key m
    → Member m (shown_errors (checked p))
unfolding shown_errors
checked-shown p key m g h = rw (places-checked p) (
    unfold checked validate_form in
    Member-messages key m (places p) (field_errors_of p.form) h.0 g h.1)

-- Once a tenant is chosen and its data is loaded, the page draws every message that `validateForm` has
-- found.
pub shown_errors-checked :
    (p : SendPage) (key message : String)
    → truthy (effective_tenant p) ≡ true
    → p.loading_tenant ≡ false
    → get key (checked p).form.field_errors ≡ some message
    → Member message (shown_errors (checked p))
unfolding checked validate_form
shown_errors-checked p key message known loaded g =
    checked-shown p key message g (field_errors_of-HasPlace p known loaded key message g)
