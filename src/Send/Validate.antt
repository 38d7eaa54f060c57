-- ===== src/Send/Validate.antt =====
-- SendNotificationPage.tsx: `validateForm`, and when it lets a form through.
pub mod Ready
use Prim.Native.Char.{code}
use Prim.Native.String
use notification_platform.Base.{
  ℕ, ◌≤◌, String, Bool, true, false, not, ◌&&◌, ◌||◌, Option, none, some, List, [], ◌∷◌, ◌≡◌, refl,
  ◌≢◌, ◌↔◌, ◌⊎◌, inl, inr, arith, eq_iff, contains, Dict, get, set, if◌then◌else◌, ◌==◌, leb, ltb,
  truthy, text_or_nil, blank, trim, is_space, utf16_length, Member, All, Bool-cases, ◌===◌,
}
use notification_platform.Send.Form.{
  RecipientMode, contact, group, Form, TemplateOption, selected_template, variables,
}

-- Some dot has text on both sides; the text before is not empty at the first call.
unfoldable pub inner_dot : String → Bool
inner_dot String.[] = false
inner_dot (String.◌∷◌ c s) = code c == b'.' && truthy s || inner_dot s

-- No white space and no @.
unfoldable pub plain : String → Bool
plain String.[] = true
plain (String.◌∷◌ c s) = not (is_space (code c)) && not (code c == b'@') && plain s

-- [^\s@]+\.[^\s@]+ to the end.
unfoldable pub is_domain : String → Bool
unfolding inner_dot plain
is_domain String.[] = false
is_domain (String.◌∷◌ c s) = plain (String.◌∷◌ c s) && inner_dot s

-- [^\s@]*@ and a domain; the flag tells that a character stands before.
unfoldable pub email_from : Bool → String → Bool
unfolding is_domain
email_from before String.[] = false
email_from before (String.◌∷◌ c s) =
    if code c == b'@' then before && is_domain s else not (is_space (code c)) && email_from true s

-- /^[^\s@]+@[^\s@]+\.[^\s@]+$/.test(s)
unfoldable pub is_email : String → Bool
unfolding email_from
is_email s = email_from false s

abbrev pub needs_value : RecipientMode → Bool
needs_value contact = false
needs_value group = false
needs_value mode = true

abbrev pub is_contact : RecipientMode → Bool
is_contact contact = true
is_contact mode = false

abbrev pub is_group : RecipientMode → Bool
is_group group = true
is_group mode = false

abbrev pub no_template : Option TemplateOption → Bool
no_template none = true
no_template (some t) = false

abbrev pub no_channel : List String → Bool
no_channel [] = true
no_channel (c ∷ cs) = false

-- `if (wrong) next[key] = message;`
unfoldable pub report : Bool → String → String → Dict String → Dict String
report wrong key message next = if wrong then set key message next else next

-- The loop over the template's variables.
unfoldable pub report_values : List String → Dict String → Dict String → Dict String
unfolding report
report_values [] values next = next
report_values (key ∷ keys) values next = report_values keys values (
    report (blank (text_or_nil (get key values))) (String.◌++◌ "var." key)
      (String.◌++◌ key " is required.") next)

-- `!/…/.test(address)` for an address that is given.
abbrev pub bad_address : String → Bool
bad_address address = truthy address && not (is_email address)

-- The errors that `validateForm` collects, in its order.
unfoldable pub field_errors_of : Form → Dict String
unfolding report_values
field_errors_of f =
    let sends = contains f.selected_channels in
    let o = f.channel_options in
    report (sends "sms" && ltb 11 (utf16_length o.sms.sender_id)) "sms_sender"
      "Sender ID should be 11 characters or fewer."
      (report (sends "email" && bad_address o.email.reply_to) "email_reply"
        "Enter a valid reply-to email."
        (report (sends "email" && bad_address o.email.from_email) "email_from"
          "Enter a valid sender email."
          (report_values (variables f) f.template_values (
            report (no_template (selected_template f)) "template"
              "Select a template to preview and send client-ready content."
              (report (needs_value f.mode && blank f.recipient_value) "recipient"
                "Enter a recipient value."
                (report (is_group f.mode && not (truthy f.group_id)) "recipient" "Select a group." (
                  report (is_contact f.mode && not (truthy f.contact_id)) "recipient"
                    "Select a contact."
                    (report (no_channel f.selected_channels) "channels"
                      "Select at least one delivery channel."
                      (report (blank f.event) "event" "Event is required." (
                        report (f.is_platform && not (truthy f.tenant_id)) "tenant"
                          "Select a tenant before sending." []))))))))))

abbrev pub no_errors : Dict String → Bool
no_errors [] = true
no_errors (e ∷ es) = false

-- `validateForm`: it shows the errors and answers whether there are none.
unfoldable pub validate_form : Form → Bool × Form
unfolding field_errors_of
validate_form f = let next = field_errors_of f in (no_errors next, record f { field_errors = next })
