-- ===== src/Roles/Toolbar.antt =====
-- RolesPage.tsx: the buttons above the list, which choose its view and open the form, and the question
-- that is asked before a role is deleted. `number` is that of an action.
use notification_platform.Base.{ℕ, String, true, false, not, none, ◌≡◌, refl}
use notification_platform.Widgets.Confirm.{ConfirmIntent, danger}
use notification_platform.Roles.Page.{
  Role, RoleView, platform, tenant_defaults, tenant_custom, RolesPage, is_custom,
}

-- The buttons `Platform roles`, `Default tenant roles` and `Tenant custom roles`.
unfoldable pub choose_view : RoleView → RolesPage → RolesPage
choose_view platform p = record p { role_view = platform; tenant_filter = "" }
choose_view tenant_defaults p = record p { role_view = tenant_defaults; tenant_filter = "" }
choose_view tenant_custom p = record p { role_view = tenant_custom }

-- The tenant that is filtered on; the control is drawn in the view of custom roles alone.
unfoldable pub filter_tenant : String → RolesPage → RolesPage
filter_tenant id p = record p { tenant_filter = id }

-- The button `Create role`, which reads `Cancel` while the form is shown.
unfoldable pub toggle_form : RolesPage → RolesPage
toggle_form p = record p { show_form = not p.show_form; editing_id = none }

-- The question of the Delete button.
unfoldable pub ask_delete : (String → ℕ) → Role → ConfirmIntent
ask_delete number r = record {
  title = "Delete role";
  confirm_label = "Delete role";
  variant = danger;
  on_confirm = number r.id;
}

-- What the toolbar does to a page.
pub data Step (p : RolesPage) : RolesPage → Type 0 where
  chooses : (v : RoleView) → Step p (choose_view v p)
  filters : (id : String) → is_custom p.role_view ≡ true → Step p (filter_tenant id p)
  toggles : Step p (toggle_form p)

-- Outside the view of custom roles no tenant is filtered on.
abbrev pub IsUnfiltered : RolesPage → Type 0
IsUnfiltered p = is_custom p.role_view ≡ false → p.tenant_filter ≡ ""

-- Each step of the toolbar keeps a page unfiltered outside the view of custom roles.
pub Step-IsUnfiltered : {p q : RolesPage} → IsUnfiltered p → Step p q → IsUnfiltered q
unfolding choose_view filter_tenant toggle_form
Step-IsUnfiltered h (chooses platform) = λ e. refl
Step-IsUnfiltered h (chooses tenant_defaults) = λ e. refl
Step-IsUnfiltered h (chooses tenant_custom) = λ e. cc
Step-IsUnfiltered h (filters id v) = λ e. cc
Step-IsUnfiltered h toggles = h
