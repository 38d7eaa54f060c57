-- ===== src/Roles/Tests.antt =====
-- Two roles, one opened after the other, and the theorems on them.
use notification_platform.Base.{true, false, none, some, [], ◌∷◌, ◌≡◌}
use notification_platform.Send.Template.{dedupe}
use notification_platform.Roles.Grouping.{Permission}
use notification_platform.Roles.Page.{
  Role, RoleDetail, platform, RolesPage, put_permissions, start_edit, edit_loaded, save_edit,
}
use notification_platform.Roles.Edits.{permission_ids, save_edit-stale}

abbrev manage : Permission
manage = record { id = "p1"; key = "users.manage"; description = "Manage users" }

abbrev view : Permission
view = record { id = "p2"; key = "audit_logs.view"; description = "View the audit log" }

abbrev owner : Role
owner = record {
  id = "r1";
  tenant_id = "";
  name = "Owner";
  key = "owner";
  scope = "platform";
  status = "active";
}

abbrev auditor : Role
auditor = record owner { id = "r2"; name = "Auditor"; key = "auditor" }

abbrev owner_detail : RoleDetail
owner_detail = record { role = owner; permissions = manage ∷ view ∷ [] }

abbrev page : RolesPage
page = record {
  is_platform = true;
  items = owner ∷ auditor ∷ [];
  all_perms = manage ∷ view ∷ [];
  loading = false;
  show_form = false;
  name = "";
  key = "";
  tenant_id = "";
  create_perms = [];
  saving = false;
  editing_id = none;
  edit_name = "";
  edit_perms = [];
  viewing_id = none;
  view_detail = none;
  role_view = platform;
  tenant_filter = "";
  meta = none;
}

save_edit-stale_example :
    let q = (start_edit auditor (edit_loaded (some owner_detail) (start_edit owner page).1)).1 in
    (q.editing_id ≡ some "r2")
    × (q.saving ≡ false)
    × ((save_edit "r2" q).0.1 ≡ put_permissions "r2" (dedupe (permission_ids owner_detail)))
    × ((save_edit "r2" (edit_loaded none q)).0.1 ≡ put_permissions "r2" [])
save_edit-stale_example = save_edit-stale owner auditor owner_detail page
