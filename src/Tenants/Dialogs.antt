-- ===== src/Tenants/Dialogs.antt =====
-- TenantsPage.tsx: the question of a status switch, the button that clears the filters, the modals as
-- they close, and the text fields of `TenantProvisionModal`. `number` is that of an action.
use Prim.Native.String.{◌++◌}
use notification_platform.Base.{
  ℕ, String, Bool, true, false, ◌||◌, none, truthy, if◌then◌else◌, ◌===◌, ◌≡◌, ◌≢◌, refl, arith,
}
use notification_platform.Widgets.Confirm.{ConfirmIntent, primary, danger}
use notification_platform.Tenants.Provision.{ProvisionForm, save_disabled}
use notification_platform.Tenants.Page.{Tenant, TenantsPage, toggle_status, set_status}

-- The question of the status switch.
unfoldable pub ask_status : (String → ℕ) → Tenant → ConfirmIntent
ask_status number t =
    let active = t.status === "active" in
    record {
      title = (if active then "Disable" else "Enable") ++ " tenant";
      confirm_label = if active then "Disable" else "Enable";
      variant = if active then danger else primary;
      on_confirm = number t.id;
    }

-- Whether `Clear filters` is drawn, and what it does.
unfoldable pub has_filters : TenantsPage → Bool
has_filters p = truthy p.search || truthy p.status_filter

unfoldable pub clear_filters : TenantsPage → TenantsPage
clear_filters p = record p { search = ""; status_filter = "" }

-- `onClose` of the two modals.
unfoldable pub close_create : TenantsPage → TenantsPage
close_create p = record p { show_create = false }

unfoldable pub close_edit : TenantsPage → TenantsPage
close_edit p = record p { edit_id = none }

-- The six text fields.
pub data TextField : Type 0 where
  name slug timezone country default_sender default_sms : TextField

unfoldable pub type_text : TextField → String → ProvisionForm → ProvisionForm
type_text name v form = record form { name = v }
type_text slug v form = record form { slug = v }
type_text timezone v form = record form { timezone = v }
type_text country v form = record form { country = v }
type_text default_sender v form = record form { default_sender = v }
type_text default_sms v form = record form { default_sms = v }

-- The question is put as a danger, and as disabling, exactly when the request that it confirms disables
-- the tenant; a tenant that is disabled or suspended is made active.
pub ask_status-toggle_status :
    (number : String → ℕ) (t : Tenant)
    → let ask = ask_status number t in
      ((t.status === "active" ≡ true)
        → (ask.confirm_label ≡ "Disable")
          × (ask.variant ≡ danger)
          × (toggle_status t ≡ set_status t.id "disabled"))
      × ((t.status === "active" ≡ false)
          → (ask.confirm_label ≡ "Enable")
            × (ask.variant ≡ primary)
            × (toggle_status t ≡ set_status t.id "active"))
unfolding ask_status toggle_status
ask_status-toggle_status number t =
    (λ e. (rw e refl, rw e refl, rw e refl), λ e. (rw e refl, rw e refl, rw e refl))

-- The button that saves waits for the name and the slug: either of the two left empty disables it.
pub save_disabled-required :
    (saving : Bool) (form : ProvisionForm)
    → (save_disabled saving (type_text name "" form) ≡ true)
      × (save_disabled saving (type_text slug "" form) ≡ true)
unfolding save_disabled type_text
save_disabled-required saving form = (ground arith, ground arith)

-- It waits for no other field.
pub save_disabled-optional :
    (f : TextField) (v : String) (saving : Bool) (form : ProvisionForm)
    → (f ≢ name)
    → f ≢ slug
    → save_disabled saving (type_text f v form) ≡ save_disabled saving form
unfolding save_disabled type_text
save_disabled-optional name v saving form n m = absurd (n refl)
save_disabled-optional slug v saving form n m = absurd (m refl)
save_disabled-optional timezone v saving form n m = refl
save_disabled-optional country v saving form n m = refl
save_disabled-optional default_sender v saving form n m = refl
save_disabled-optional default_sms v saving form n m = refl
