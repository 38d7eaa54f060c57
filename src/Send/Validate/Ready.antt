-- ===== src/Send/Validate/Ready.antt =====
-- When `validateForm` of SendNotificationPage.tsx lets a form through.
use Prim.Native.String
use notification_platform.Base.{
  ℕ, ◌≤◌, String, Bool, true, false, not, ◌&&◌, Option, none, some, List, [], ◌∷◌, ◌≡◌, refl, ap,
  sym, ◌∙◌, ◌≢◌, ◌↔◌, inl, inr, arith, contains, Dict, get, set, ltb, truthy, text_or_nil, blank,
  utf16_length, Member, every, every-Member, contains-Member,
}
use notification_platform.Send.Form.{
  RecipientMode, contact, group, Form, TemplateOption, selected_template, variables,
}
use notification_platform.Send.Validate.{
  is_email, report, report_values, field_errors_of, no_errors, validate_form, needs_value,
  is_contact, is_group, no_template, no_channel, bad_address,
}

-- The recipient that the mode asks for is given.
abbrev pub HasRecipient : Form → RecipientMode → Type 0
HasRecipient f contact = f.contact_id ≢ ""
HasRecipient f group = f.group_id ≢ ""
HasRecipient f mode = blank f.recipient_value ≡ false

-- What a form needs to be sent.
pub record IsReady (f : Form) : Type 0 where
  pub tenant : f.is_platform ≡ true → f.tenant_id ≢ ""
  pub event : blank f.event ≡ false
  pub channels : f.selected_channels ≢ []
  pub recipient : HasRecipient f f.mode
  pub template : selected_template f ≢ none
  pub values :
      (key : String)
      → Member key (variables f)
      → blank (text_or_nil (get key f.template_values)) ≡ false
  pub from_email :
      Member "email" f.selected_channels
      → f.channel_options.email.from_email ≢ ""
      → is_email f.channel_options.email.from_email ≡ true
  pub reply_to :
      Member "email" f.selected_channels
      → f.channel_options.email.reply_to ≢ ""
      → is_email f.channel_options.email.reply_to ≡ true
  pub sender_id :
      Member "sms" f.selected_channels → utf16_length f.channel_options.sms.sender_id ≤ 11

no_errors-set : (k m : String) (d : Dict String) → no_errors (set k m d) ≡ false
unfolding set
no_errors-set k m [] = refl
no_errors-set k m ((j, v) ∷ d) = ground arith

no_errors-report :
    (wrong : Bool) (k m : String) (d : Dict String)
    → no_errors (report wrong k m d) ≡ (not wrong && no_errors d)
unfolding report
no_errors-report true k m d = no_errors-set k m d
no_errors-report false k m d = refl

abbrev filled : Dict String → String → Bool
filled values key = not (blank (text_or_nil (get key values)))

no_errors-report_values :
    (keys : List String) (values d : Dict String)
    → no_errors (report_values keys values d) ≡ (every (filled values) keys && no_errors d)
unfolding report_values
no_errors-report_values [] values d = refl
no_errors-report_values (key ∷ keys) values d = ground (
  arith,
  no_errors-report_values keys values (
      report (blank (text_or_nil (get key values))) (String.◌++◌ "var." key)
        (String.◌++◌ key " is required.") d),
  no_errors-report (blank (text_or_nil (get key values))) (String.◌++◌ "var." key)
      (String.◌++◌ key " is required.") d,
)

-- The conditions of `validateForm`, last first.
abbrev clear : Form → Bool
clear f =
    let sends = contains f.selected_channels in
    let o = f.channel_options in
    not (sends "sms" && ltb 11 (utf16_length o.sms.sender_id))
    && (not (sends "email" && bad_address o.email.reply_to)
        && (not (sends "email" && bad_address o.email.from_email)
            && (every (filled f.template_values) (variables f)
                && (not (no_template (selected_template f))
                    && (not (needs_value f.mode && blank f.recipient_value)
                        && (not (is_group f.mode && not (truthy f.group_id))
                            && (not (is_contact f.mode && not (truthy f.contact_id))
                                && (not (no_channel f.selected_channels)
                                    && (not (blank f.event)
                                        && (not (f.is_platform && not (truthy f.tenant_id))
                                            && true))))))))))

no_errors-field_errors_of : (f : Form) → no_errors (field_errors_of f) ≡ clear f
unfolding field_errors_of
no_errors-field_errors_of f = simp (no_errors-report, no_errors-report_values)

truthy_iff : (s : String) → (truthy s ≡ true) ↔ (s ≢ "")
truthy_iff String.[] = ((λ h. cc), (λ h. absurd (h refl)))
truthy_iff (String.◌∷◌ c s) = ((λ h e. absurd (ground (arith, ap truthy e))), (λ h. refl))

every-filled :
    (values : Dict String) (keys : List String)
    → ((key : String) → Member key keys → blank (text_or_nil (get key values)) ≡ false)
    → every (filled values) keys ≡ true
every-filled values [] h = refl
every-filled values (key ∷ keys) h =
    ground (arith, h key (inl refl), every-filled values keys (λ k m. h k (inr m)))

recipient_iff :
    (f : Form) (mode : RecipientMode)
    → (HasRecipient f mode) ↔ (
        (needs_value mode && blank f.recipient_value ≡ false)
        × (is_group mode && not (truthy f.group_id) ≡ false)
        × (is_contact mode && not (truthy f.contact_id) ≡ false))
recipient_iff f contact = ground (arith, truthy_iff f.contact_id)
recipient_iff f group = ground (arith, truthy_iff f.group_id)
recipient_iff f mode = ground arith

template_iff : (o : Option TemplateOption) → (no_template o ≡ false) ↔ (o ≢ none)
template_iff none = ((λ h. cc), (λ h. absurd (h refl)))
template_iff (some t) = ((λ h. λ e. cc), (λ h. refl))

channels_iff : (cs : List String) → (no_channel cs ≡ false) ↔ (cs ≢ [])
channels_iff [] = ((λ h. cc), (λ h. absurd (h refl)))
channels_iff (c ∷ cs) = ((λ h. λ e. cc), (λ h. refl))

address_iff :
    (sends : Bool) (address : String)
    → (sends && bad_address address ≡ false)
      ↔ (sends ≡ true → address ≢ "" → is_email address ≡ true)
address_iff sends address = ground (arith, truthy_iff address)

tenant_of : (p : Bool) (t : String) → p && not (truthy t) ≡ false → p ≡ true → t ≢ ""
tenant_of p t h q = (truthy_iff t).0 (ground arith)

of_tenant : (p : Bool) (t : String) → (p ≡ true → t ≢ "") → p && not (truthy t) ≡ false
of_tenant false t h = refl
of_tenant true t h = ground (arith, (truthy_iff t).1 (h refl))

value_of :
    (values : Dict String) (keys : List String)
    → every (filled values) keys ≡ true
    → (key : String) → Member key keys
    → blank (text_or_nil (get key values)) ≡ false
value_of values keys h key m = ground (arith, every-Member (filled values) keys key h m)

short_of : (s : Bool) (n : ℕ) → s && ltb 11 n ≡ false → s ≡ true → n ≤ 11
short_of s n h e = ground arith

of_short : (s : Bool) (n : ℕ) → (s ≡ true → n ≤ 11) → s && ltb 11 n ≡ false
of_short false n h = refl
of_short true n h = ground (arith, h refl)

both : (a b : Bool) → a && b ≡ true → (a ≡ true) × (b ≡ true)
both a b h = (ground arith, ground arith)

of_both : (a b : Bool) → a ≡ true → b ≡ true → a && b ≡ true
of_both a b h k = ground arith

unwrong : (a b : Bool) → not a && b ≡ true → (a ≡ false) × (b ≡ true)
unwrong a b h = (ground arith, ground arith)

rewrong : (a b : Bool) → a ≡ false → b ≡ true → not a && b ≡ true
rewrong a b h k = ground arith

clear-IsReady : (f : Form) → clear f ≡ true → IsReady f
clear-IsReady f h =
    let sends = contains f.selected_channels in
    let emails = contains-Member f.selected_channels "email" in
    let (sms, h) = unwrong _ _ h in
    let (reply, h) = unwrong _ _ h in
    let (from, h) = unwrong _ _ h in
    let (vars, h) : (every (filled f.template_values) (variables f) ≡ true) × _ = both _ _ h in
    let (tpl, h) = unwrong _ _ h in
    let (needs, h) = unwrong _ _ h in
    let (grp, h) = unwrong _ _ h in
    let (con, h) = unwrong _ _ h in
    let (chs, h) = unwrong _ _ h in
    let (ev, h) = unwrong _ _ h in
    let (ten, h) = unwrong _ _ h in
    record {
      tenant = tenant_of f.is_platform f.tenant_id ten;
      event = ev;
      channels = (channels_iff f.selected_channels).0 chs;
      recipient = (recipient_iff f f.mode).1 (needs, grp, con);
      template = (template_iff (selected_template f)).0 tpl;
      values = λ key m. value_of f.template_values (variables f) vars key m;
      from_email =
          λ m. (address_iff (sends "email") f.channel_options.email.from_email).0 from (emails.1 m);
      reply_to =
          λ m. (address_iff (sends "email") f.channel_options.email.reply_to).0 reply (emails.1 m);
      sender_id = λ m. short_of _ _ sms ((contains-Member f.selected_channels "sms").1 m);
    }

IsReady-clear : (f : Form) → IsReady f → clear f ≡ true
IsReady-clear f r =
    let (needs, grp, con) = (recipient_iff f f.mode).0 r.recipient in
    let sends = contains f.selected_channels in
    let emails = contains-Member f.selected_channels "email" in
    rewrong _ _
      (of_short (sends "sms") _
        (λ h. r.sender_id ((contains-Member f.selected_channels "sms").0 h)))
      (rewrong _ _
        ((address_iff (sends "email") f.channel_options.email.reply_to).1
          (λ h. r.reply_to (emails.0 h)))
        (rewrong _ _
          ((address_iff (sends "email") f.channel_options.email.from_email).1
            (λ h. r.from_email (emails.0 h)))
          (of_both _ _ (every-filled f.template_values (variables f) r.values) (
            rewrong _ _ ((template_iff (selected_template f)).1 r.template) (
              rewrong _ _ needs (
                rewrong _ _ grp (
                  rewrong _ _ con (
                    rewrong _ _ ((channels_iff f.selected_channels).1 r.channels) (
                      rewrong _ _ r.event
                        (rewrong _ _ (of_tenant f.is_platform f.tenant_id r.tenant) refl))))))))))

-- A form passes validation exactly when it is ready: a platform administrator has chosen a tenant,
-- the event is not blank, a channel is selected, the recipient that the mode asks for is given, the
-- template key names a loaded template and each of its variables has a value that is not blank, the
-- sender addresses given for a selected email channel are well formed, and the sender ID of a
-- selected SMS channel has at most 11 UTF-16 units.
pub validate_form_iff : (f : Form) → ((validate_form f).0 ≡ true) ↔ IsReady f
unfolding validate_form
validate_form_iff f = (
  (λ h. clear-IsReady f (sym (no_errors-field_errors_of f) ∙ h)),
  (λ r. no_errors-field_errors_of f ∙ IsReady-clear f r),
)
