-- ===== src/Users/Editing.antt =====
-- UsersPage.tsx: the dialogs that show and edit a user, the roles that they offer, and the question that
-- is asked before a status is changed or a user is deleted. `number` is that of an action.
pub mod Fits
use Prim.Native.String.{◌++◌}
use notification_platform.Base.{
  ℕ, String, Bool, true, false, not, ◌&&◌, Option, none, some, List, [], ◌∷◌, find, filter, truthy,
  if◌then◌else◌, ◌===◌, ◌≡◌, ◌≢◌, refl, ap, ◌∙◌, ◌⊎◌, inl, inr, arith, eq_iff, Member,
  Member-filter, Bool-cases, Option-cases,
}
use notification_platform.Widgets.Confirm.{ConfirmIntent, primary, danger}
use notification_platform.Users.Page.{
  User, UserRole, UsersPage, Assignment, start_edit, assign_edited, next_status,
}

abbrev chosen : Option String → List User → Option User
chosen none items = none
chosen (some id) items = find (λ u. u.id === id) items

-- `editingUser` and `viewingUser`: the dialogs are drawn for them.
unfoldable pub editing_user : UsersPage → Option User
editing_user p = chosen p.editing_id p.items

unfoldable pub viewing_user : UsersPage → Option User
viewing_user p = chosen p.viewing_id p.items

abbrev pub offered_to : Option User → UserRole → Bool
offered_to none r = r.scope === "platform"
offered_to (some u) r =
    if u.is_platform_admin
    then r.scope === "platform"
    else r.scope === "tenant" && truthy r.tenant_id

-- `editRoleOptions`
unfoldable pub edit_role_options : UsersPage → List UserRole
unfolding editing_user
edit_role_options p = filter (offered_to (editing_user p)) p.roles

-- The buttons and inputs of the dialogs.
unfoldable pub view_user : User → UsersPage → UsersPage
view_user u p = record p { viewing_id = some u.id }

unfoldable pub close_view : UsersPage → UsersPage
close_view p = record p { viewing_id = none }

unfoldable pub edit_viewed : User → UsersPage → UsersPage
unfolding close_view start_edit
edit_viewed u p = start_edit u (close_view p)

unfoldable pub close_edit : UsersPage → UsersPage
close_edit p = record p { editing_id = none }

unfoldable pub type_edit : String → String → UsersPage → UsersPage
type_edit name email p = record p { edit_name = name; edit_email = email }

unfoldable pub choose_edit_role : String → UsersPage → UsersPage
choose_edit_role id p = record p { edit_role_id = id }

-- `saveEdit` up to its first `await`, and its end: every request returned, or one threw.
unfoldable pub save_edit : UsersPage → UsersPage
save_edit p = record p { saving = true }

unfoldable pub edit_done : Bool → UsersPage → UsersPage
edit_done true p = record p { editing_id = none; saving = false }
edit_done false p = record p { saving = false }

-- The questions of the status switch and of the Delete button.
unfoldable pub ask_status : (String → ℕ) → User → ConfirmIntent
ask_status number u =
    let active = u.status === "active" in
    record {
      title = (if active then "Disable" else "Enable") ++ " user";
      confirm_label = if active then "Disable" else "Enable";
      variant = if active then danger else primary;
      on_confirm = number u.id;
    }

unfoldable pub ask_delete : (String → ℕ) → User → ConfirmIntent
ask_delete number u = record {
  title = "Delete user";
  confirm_label = "Delete user";
  variant = danger;
  on_confirm = number u.id;
}
