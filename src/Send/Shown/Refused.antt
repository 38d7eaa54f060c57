-- ===== src/Send/Shown/Refused.antt =====
-- SendNotificationPage.tsx does not refuse a form in silence.
use mathlib.Core.Path.{subst}
use notification_platform.Base.{
  String, Bool, true, false, not, ◌&&◌, some, List, [], ◌∷◌, Dict, get, set, get-set, eq_iff, ◌===◌,
  truthy, ◌≡◌, ◌≢◌, ◌⊎◌, refl, inl, inr, arith, Member, Bool-cases,
}
use notification_platform.Send.Form.{Form, variables}
use notification_platform.Send.Tenancy.{SendPage, effective_tenant}
use notification_platform.Send.Validate.{
  report, report_values, field_errors_of, no_errors, validate_form,
}
use notification_platform.Send.Shown.{shown_errors, checked}
use notification_platform.Send.Shown.Reported.{
  Errors, report-Errors, required_text, on_top, checked-shown, shown_errors-checked,
}

-- There is an error at the key.
abbrev HasError : String → Dict String → Type 0
HasError key d = (message : String) × (get key d ≡ some message)

report-HasError :
    (key : String) (wrong : Bool) (k m : String) (d : Dict String)
    → HasError key d
    → HasError key (report wrong k m d)
unfolding report
report-HasError key false k m d h = h
report-HasError key true k m d (n, h) = elim (Bool-cases (k === key)) [
  | inl e ↦ (m, ground (arith, get-set k key m d))
  | inr e ↦ (n, ground (arith, get-set k key m d))
]

-- What each report with a text keeps holds of the errors of the form, if it holds of that of the tenant.
module _ (Q : Dict String → Type 0)
    (keep : (wrong : Bool) (k m : String) (d : Dict String)
      → truthy m ≡ true
      → Q d
      → Q (report wrong k m d)) where
  report_values_ind :
      (keys : List String) (values d : Dict String) → Q d → Q (report_values keys values d)
  unfolding report_values
  report_values_ind [] values d h = h
  report_values_ind (key ∷ keys) values d h =
      report_values_ind keys values _ (keep _ _ _ d (required_text key) h)

  first_ind :
      (w v u t r q : Bool) (d : Dict String)
      → Q d
      → Q (
          report w "template" "Select a template to preview and send client-ready content." (
            report v "recipient" "Enter a recipient value." (
              report u "recipient" "Select a group." (
                report t "recipient" "Select a contact." (
                  report r "channels" "Select at least one delivery channel."
                    (report q "event" "Event is required." d))))))
  first_ind w v u t r q d h = keep w _ _ _ refl (
      keep v _ _ _ refl
        (keep u _ _ _ refl (keep t _ _ _ refl (keep r _ _ _ refl (keep q _ _ d refl h)))))

  field_errors_of_ind :
      (f : Form)
      → Q (
          report
            (f.is_platform && not (truthy f.tenant_id))
            "tenant"
            "Select a tenant before sending."
            [])
      → Q (field_errors_of f)
  unfolding field_errors_of
  field_errors_of_ind f h = keep _ "sms_sender" _ _ refl (
      keep _ "email_reply" _ _ refl (
        keep _ "email_from" _ _ refl
          (report_values_ind (variables f) f.template_values _ (first_ind _ _ _ _ _ _ _ h))))

abbrev IsText : String → String → Type 0
IsText key message = truthy message ≡ true

-- Every message has a text.
field_errors_of-IsText : (f : Form) → Errors IsText (field_errors_of f)
field_errors_of-IsText f =
    let keep = λ (wrong : Bool) (k m : String) (d : Dict String) (t : truthy m ≡ true).
      report-Errors IsText wrong k m d (λ e. t) in
    field_errors_of_ind (Errors IsText) keep f (keep _ _ _ [] refl (λ j n h. unfold get in cc))

-- A platform administrator without a tenant has an error at the tenant.
tenant-HasError :
    (f : Form) → f.is_platform ≡ true → f.tenant_id ≡ "" → HasError "tenant" (field_errors_of f)
tenant-HasError f platform empty =
    field_errors_of_ind (HasError "tenant") (λ wrong k m d t. report-HasError "tenant" wrong k m d)
      f ("Select a tenant before sending.", unfold report set get in rw (platform, empty) refl)

some_error :
    (d : Dict String) → no_errors d ≡ false → (key message : String) × (get key d ≡ some message)
some_error [] h = cc
some_error ((k, m) ∷ d) h = (k, m, unfold get in ground (arith, eq_iff k k))

-- A form that `validateForm` refuses leaves a message on the page, if a tenant is chosen and its data is
-- loaded, or if a platform administrator has chosen none.
pub shown_errors-ne-nil :
    (p : SendPage)
    → (truthy (effective_tenant p) ≡ true) × (p.loading_tenant ≡ false)
      ⊎ (p.form.is_platform ≡ true) × (p.form.tenant_id ≡ "")
    → (validate_form p.form).0 ≡ false
    → shown_errors (checked p) ≢ []
unfolding validate_form
shown_errors-ne-nil p (inl (known, loaded)) refused none_shown =
    let (key, message, e) = some_error (field_errors_of p.form) refused in
    absurd (
      subst (Member message) none_shown
        (shown_errors-checked p key message known loaded (unfold checked in e)))
shown_errors-ne-nil p (inr (platform, empty)) refused none_shown =
    let (message, e) = tenant-HasError p.form platform empty in
    absurd (
      subst (Member message) none_shown (
        checked-shown p "tenant" message e (
          on_top p "tenant" (rw platform (inl refl)),
          field_errors_of-IsText p.form "tenant" message e,
        )))
