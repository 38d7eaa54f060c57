-- ===== src/Users/Tests.antt =====
-- A platform administrator adds a tenant user, and the theorem at that point.
use notification_platform.Base.{
  inr, none, find, ◌≢◌, sym, ◌∙◌, true, false, some, [], ◌∷◌, ◌≡◌, refl, inl, Member, filter,
}
use notification_platform.Users.Editing.{editing_user, edit_role_options, choose_edit_role}
use notification_platform.Users.Editing.Fits
use notification_platform.Users.Page.{
  User, Assignment, start_edit, assign_edited, UserRole, UsersPage, listed, choose_tenant,
  choose_role, create_disabled, create_user, assign_created, creates_platform, create_role_options,
}
use notification_platform.Users.Creation.{tenants, picks, Reach, here, next, Fits, create-Fits}

abbrev member_role : UserRole
member_role = record {
  id = "r1";
  tenant_id = "t1";
  name = "Member";
  key = "member";
  scope = "tenant";
}

abbrev adding_user : UsersPage
adding_user = choose_role "r1" (choose_tenant "t1" (listed true "" [] (member_role ∷ [])))

role_offered :
    Member member_role
      (create_role_options (choose_tenant "t1" (listed true "" [] (member_role ∷ []))))
unfolding create_role_options choose_tenant listed filter
role_offered = inl refl

adding_user_reached : Reach true "" [] (member_role ∷ []) adding_user
unfolding listed
adding_user_reached = next (next here (tenants "t1" refl)) (picks member_role role_offered)

adding_user_enabled : create_disabled adding_user ≡ false
unfolding create_disabled choose_role choose_tenant listed
adding_user_enabled = refl

create-Fits_example :
    (r : UserRole) × Member r adding_user.roles
    × Fits r adding_user
    × (assign_created "u9" adding_user
        ≡ some (record {
          user_id = "u9";
          role_id = r.id;
          tenant_id = (create_user adding_user).tenant_id;
        }))
    × ((create_user adding_user).is_platform_admin ≡ creates_platform adding_user)
create-Fits_example = create-Fits "u9" adding_user_reached adding_user_enabled

-- The administrator edits that user and picks the role again.
abbrev bob : User
bob = record {
  id = "u9";
  email = "bob@acme.test";
  name = "Bob";
  is_platform_admin = false;
  status = "active";
}

abbrev listing_bob : UsersPage
listing_bob = listed true "" (bob ∷ []) (member_role ∷ [])

abbrev editing_bob : UsersPage
editing_bob = choose_edit_role "r1" (start_edit bob listing_bob)

role_offered_to_bob : Member member_role (edit_role_options (start_edit bob listing_bob))
unfolding edit_role_options start_edit listed filter find
role_offered_to_bob = inl refl

bob_edited : editing_user (start_edit bob listing_bob) ≢ none
unfolding editing_user start_edit listed find
bob_edited e = cc

editing_bob_reached : Fits.Reach true "" (bob ∷ []) (member_role ∷ []) editing_bob
unfolding listed
editing_bob_reached =
    Fits.next (Fits.next Fits.here (Fits.edits bob (inl refl)))
      (Fits.picks member_role role_offered_to_bob bob_edited)

one_role : Fits.SameId editing_bob.roles
unfolding choose_edit_role start_edit listed
one_role r s (inl p) (inl q) e = sym p ∙ q
one_role r s (inl p) (inr q) e = absurd q
one_role r s (inr p) q e = absurd p

abbrev member_for_bob : Assignment
member_for_bob = record { user_id = "u9"; role_id = "r1"; tenant_id = some "t1" }

assign_edited-Suits_example :
    (member_for_bob.user_id ≡ bob.id)
    × ((r : UserRole) × Member r editing_bob.roles
        × (r.id ≡ member_for_bob.role_id)
        × Fits.Suits false r member_for_bob.tenant_id)
unfolding editing_user assign_edited choose_edit_role start_edit listed find
assign_edited-Suits_example =
    Fits.assign_edited-Suits bob member_for_bob editing_bob_reached one_role refl refl
