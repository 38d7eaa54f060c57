-- ===== src/Send/Tests.antt =====
-- A form that is filled in and sent, and the theorems on it.
use notification_platform.Base.{
  inr, String, true, false, none, some, [], ◌∷◌, ◌≡◌, refl, ◌≢◌, ◌↔◌, Member, get, arith, eq_iff,
  find, contains, trim, set,
}
use notification_platform.Send.Template.{raw, hole, placeholder, template_variables, pieces}
use notification_platform.Send.Template.Laws.{Distinct}
use notification_platform.Send.Template.Matches.{Cut, pieces-Cut, template_variables_iff}
use notification_platform.Send.Form.{
  contact, choose_tenant, edit, ChannelOption, TemplateOption, Form, empty_channel_options,
  variables, opened, mounted_form, selected_template, load_channels, load_templates,
  choose_template,
}
use notification_platform.Send.Validate.{validate_form, field_errors_of}
use notification_platform.Send.Validate.Ready.{IsReady, validate_form_iff}
use notification_platform.Send.Submit.{payload_of, submit}
use notification_platform.Send.Tenancy.{SendPage, effective_tenant, load_contacts}
use notification_platform.Send.Shown.{shown_errors, checked}
use notification_platform.Send.Shown.Reported.{shown_errors-checked}
use notification_platform.Send.Shown.Refused.{shown_errors-ne-nil}
use notification_platform.Send.Tenancy.Stale.{submit-choose_tenant}
use notification_platform.Send.Submit.Laws.{submit_cases}
use notification_platform.Send.Channels.{
  loads_channels, loads_templates, chooses, Reach, here, next,
}
use notification_platform.Send.Channels.Kept.{IsKept, Reach-IsKept}

abbrev welcome : TemplateOption
welcome = record {
  id = "t1";
  template_key = "user.welcome";
  channel = "email";
  subject = "Hi {{name}}";
  body = "Use {{ code }}";
}

abbrev email_option : ChannelOption
email_option = record { channel = "email"; enabled = true }

-- The page with one channel and one template, which is chosen.
abbrev composing : Form
composing =
    choose_template "user.welcome"
      (load_templates (welcome ∷ []) (load_channels (email_option ∷ []) (mounted_form false "t1")))

composing_reached : Reach false "t1" composing
composing_reached =
    next (next (next here (loads_channels (email_option ∷ []))) (loads_templates (welcome ∷ [])))
      (chooses "user.welcome")

Reach-IsKept_example : IsKept composing
Reach-IsKept_example = Reach-IsKept composing_reached

-- The same form with its channel switched off, written out.
abbrev switched_off : Form
switched_off = record (opened false "t1") {
  available_channels = "email" ∷ [];
  selected_channels = [];
  templates = welcome ∷ [];
  template_key = "user.welcome";
  event = "user.welcome";
}

abbrev filled_in : Form
filled_in = record switched_off {
  selected_channels = "email" ∷ [];
  recipient_value = "ann@acme.test";
  template_values = ("name", "Ann") ∷ ("code", "42") ∷ [];
}

validate_form_iff_example : ((validate_form filled_in).0 ≡ true) ↔ IsReady filled_in
validate_form_iff_example = validate_form_iff filled_in

submit_cases_example :
    (IsReady filled_in
      → submit filled_in ≡ (
        some (payload_of filled_in),
        record filled_in { error = ""; field_errors = []; sending = true },
      ))
    × (¬ IsReady filled_in
        → ((submit filled_in).0 ≡ none)
          × ((submit filled_in).1 ≡ record filled_in {
            error = "";
            field_errors = field_errors_of (record filled_in { error = "" });
          })
          × ((submit filled_in).1.field_errors ≢ []))
submit_cases_example = submit_cases filled_in

pieces-Cut_example :
    (pieces "a {{ b }}" ≡ raw "a" ∷ raw " " ∷ hole "b" ∷ [])
    ↔ Cut "a {{ b }}" (raw "a" ∷ raw " " ∷ hole "b" ∷ [])
pieces-Cut_example = pieces-Cut "a {{ b }}" (raw "a" ∷ raw " " ∷ hole "b" ∷ [])

abbrev code_text : String
code_text = "Hi {{name}}\nUse {{ code }}"

code_cut : Cut code_text (pieces code_text)
code_cut = (pieces-Cut code_text (pieces code_text)).0 refl

template_variables_iff_example :
    ((key : String)
      → Member key (template_variables "Hi {{name}}" "Use {{ code }}")
        ↔ Member (hole key) (pieces code_text))
    × Distinct (template_variables "Hi {{name}}" "Use {{ code }}")
template_variables_iff_example =
    template_variables_iff "Hi {{name}}" "Use {{ code }}" (pieces code_text) code_cut

-- The same notification, of a platform administrator to a contact of the first tenant.
abbrev to_contact : Form
to_contact = record filled_in {
  is_platform = true;
  tenant_id = "t1";
  mode = contact;
  contact_id = "c1";
}

to_contact-IsReady : IsReady to_contact
unfolding validate_form contains opened empty_channel_options variables template_variables
    selected_template find placeholder trim get
to_contact-IsReady = (validate_form_iff to_contact).0 refl

submit-choose_tenant_example :
    let g = load_contacts [] (edit (choose_tenant "t2") to_contact) in
    ((submit g).0 ≡ some (payload_of g))
    × ((payload_of g).tenant_id ≡ some "t2")
    × ((payload_of g).target.id ≡ some "c1")
    × ((payload_of g).target.recipient ≡ ("email", "") ∷ ("phone", "") ∷ [])
unfolding find
submit-choose_tenant_example =
    submit-choose_tenant "t2" [] to_contact (λ e. ground (arith, eq_iff "t2" "")) refl refl refl
      to_contact-IsReady

-- The page of a tenant user, before a channel is selected, and that of an administrator without tenant.
abbrev refused_page : SendPage
refused_page = record {
  form = switched_off;
  tenants = [];
  loading_tenant = false;
  my_tenant_id = "t1";
}

abbrev no_tenant_page : SendPage
no_tenant_page = record refused_page {
  form = record switched_off { is_platform = true; tenant_id = "" };
  my_tenant_id = "";
}

shown_errors-checked_example :
    Member "Select at least one delivery channel." (shown_errors (checked refused_page))
unfolding effective_tenant checked validate_form opened empty_channel_options contains get set
    variables template_variables selected_template find placeholder trim
shown_errors-checked_example =
    shown_errors-checked refused_page "channels" "Select at least one delivery channel." refl refl
      refl

shown_errors-ne-nil_example : shown_errors (checked no_tenant_page) ≢ []
unfolding validate_form opened empty_channel_options contains get set variables template_variables
    selected_template find placeholder trim
shown_errors-ne-nil_example = shown_errors-ne-nil no_tenant_page (inr (refl, refl)) refl
