-- ===== src/Groups/Members.antt =====
-- Whose members the modal of GroupsPage.tsx shows.
use notification_platform.Base.{String, none, some, List, find, ◌===◌, ◌≡◌, refl, arith, eq_iff}
use notification_platform.Groups.Page.{
  Group, Person, GroupsPage, load_members, remove_from, toggle_group, close_members, members_loaded,
  remove_member, member_changed, expanded_group,
}

-- Opening a group asks for its members, and its modal shows them once they arrive; opening it again
-- closes it.
pub toggle_group-members :
    (g : Group) (members : List Person) (p : GroupsPage)
    → p.expanded ≡ none
    → find (λ x. x.id === g.id) p.items ≡ some g
    → let (request, q) = toggle_group g.id p in
      let r = members_loaded members q in
      (request ≡ some (load_members g.id))
      × (expanded_group r ≡ some g)
      × (r.members ≡ members)
      × (toggle_group g.id r ≡ (none, record p { members = members }))
unfolding toggle_group members_loaded expanded_group
toggle_group-members g members p e f =
    rw (e, f) (refl, refl, refl, ground (arith, eq_iff g.id g.id))

-- A group is closed and another is opened: its modal shows the members of the first until the reply,
-- for good if the request fails. If a member of the first was being removed, the end of that request
-- asks for the members of the first again, and although the server answers in order, the modal of the
-- second then shows those; a press of Remove asks the server to remove one of them from the second.
pub toggle_group-crossed :
    (a : String) (g : Group) (members late : List Person) (p : GroupsPage) (m : Person)
    → find (λ x. x.id === g.id) p.items ≡ some g
    → let (request, q) = toggle_group g.id (close_members p) in
      let r = members_loaded late (members_loaded members q) in
      (request ≡ some (load_members g.id))
      × (expanded_group q ≡ some g)
      × (q.members ≡ p.members)
      × (member_changed a none ≡ some (load_members a))
      × (expanded_group r ≡ some g)
      × (r.members ≡ late)
      × (remove_member g.id m.id ≡ remove_from g.id m.id)
unfolding toggle_group close_members members_loaded expanded_group remove_member member_changed
toggle_group-crossed a g members late p m f = (refl, f, refl, refl, f, refl, refl)
