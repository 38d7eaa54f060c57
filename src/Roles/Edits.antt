-- ===== src/Roles/Edits.antt =====
-- What RolesPage.tsx writes back when a role is edited.
use notification_platform.Base.{
  String, true, false, not, none, some, List, [], ◌∷◌, ◌++◌, map, filter, ◌≡◌, refl, ◌≢◌, ◌↔◌, ◌⊎◌,
  inl, inr, arith, eq_iff, contains, contains-Member, Member, Member-filter, Member-append_left,
  Member-append_right, ◌===◌, Bool-cases, sym,
}
use notification_platform.Send.Template.{dedupe}
use notification_platform.Send.Template.Laws.{Distinct, dedupe_iff, dedupe-Distinct}
use notification_platform.Send.Channels.Selection.{
  Distinct-filter, Distinct-concat, absent, Member-of_concat,
}
use notification_platform.Roles.Page.{
  Role, RoleDetail, RolesPage, rename_role, put_permissions, start_edit, edit_loaded, save_edit,
  toggle_id, toggle_perm,
}

-- The ids of a role's permissions.
abbrev pub permission_ids : RoleDetail → List String
permission_ids detail = map (λ q. q.id) detail.permissions

-- Opening a role, letting its details load and saving at once writes back the name that it has and the
-- same set of permissions, each once.
pub save_edit-unchanged :
    (item : Role) (detail : RoleDetail) (p : RolesPage)
    → let q = edit_loaded (some detail) (start_edit item p).1 in
      ((save_edit item.id q).0.0 ≡ rename_role item.id item.name)
      × ((save_edit item.id q).0.1 ≡ put_permissions item.id q.edit_perms)
      × ((id : String) → Member id q.edit_perms ↔ Member id (permission_ids detail))
      × Distinct q.edit_perms
unfolding start_edit edit_loaded save_edit
save_edit-unchanged item detail p = (
  refl,
  refl,
  (λ id. dedupe_iff (permission_ids detail) id),
  dedupe-Distinct (permission_ids detail),
)

-- A role opened while another one's permissions are still in the editor, and saved before its own have
-- loaded, is given the other role's permissions; saved after they failed to load, it is left with
-- none.
pub save_edit-stale :
    (first second : Role) (detail : RoleDetail) (p : RolesPage)
    → let q = (start_edit second (edit_loaded (some detail) (start_edit first p).1)).1 in
      (q.editing_id ≡ some second.id)
      × (q.saving ≡ p.saving)
      × ((save_edit second.id q).0.1 ≡ put_permissions second.id (dedupe (permission_ids detail)))
      × ((save_edit second.id (edit_loaded none q)).0.1 ≡ put_permissions second.id [])
unfolding start_edit edit_loaded save_edit
save_edit-stale first second detail p = (refl, refl, refl, refl)

-- The ids in a set after a click on one of them.
abbrev pub Toggled : String → List String → String → Type 0
Toggled pid prev x = (x ≡ pid) × (¬ Member pid prev) ⊎ (x ≢ pid) × Member x prev

toggle_id_off :
    (pid : String) (prev : List String) (x : String)
    → contains prev pid ≡ true
    → Member x (filter (λ c. not (c === pid)) prev) ↔ Toggled pid prev x
toggle_id_off pid prev x h =
    let held = (contains-Member prev pid).0 h in
    let kept = Member-filter (λ c. not (c === pid)) prev x in
    (
      (λ m. inr ((λ e. absurd (ground (arith, eq_iff x pid, (kept.0 m).1))), (kept.0 m).0)),
      (λ t. elim t [
        | inl g ↦ absurd (g.1 held)
        | inr g ↦ kept.1 (g.1, ground (arith, eq_iff x pid, g.0))
      ]),
    )

toggle_id_on :
    (pid : String) (prev : List String) (x : String)
    → contains prev pid ≡ false
    → Member x (prev ++ pid ∷ []) ↔ Toggled pid prev x
toggle_id_on pid prev x h =
    let out = absent pid prev h in
    (
      (λ m. elim (Member-of_concat x pid prev m) [
        | inl k ↦ inr ((λ e. out (rw (← e) k)), k)
        | inr e ↦ inl (sym e, out)
      ]),
      (λ t. elim t [
        | inl g ↦ Member-append_right x prev (pid ∷ []) (inl (sym g.0))
        | inr g ↦ Member-append_left x prev (pid ∷ []) g.1
      ]),
    )

-- A click on a permission adds it to the set of the edited role, or takes it out if it was there, and
-- changes no other; a set without repetition stays so.
pub toggle_perm_iff :
    (pid : String) (p : RolesPage)
    → ((x : String) → Member x (toggle_perm pid p).edit_perms ↔ Toggled pid p.edit_perms x)
      × (Distinct p.edit_perms → Distinct (toggle_perm pid p).edit_perms)
unfolding toggle_perm toggle_id
toggle_perm_iff pid p = elim (Bool-cases (contains p.edit_perms pid)) [
  | inl e ↦
      rw e ((λ x. toggle_id_off pid p.edit_perms x e), (λ d. Distinct-filter _ p.edit_perms d))
  | inr e ↦ rw e (
    (λ x. toggle_id_on pid p.edit_perms x e),
    (λ d. Distinct-concat pid p.edit_perms d (absent pid p.edit_perms e)),
  )
]
