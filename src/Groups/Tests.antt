-- ===== src/Groups/Tests.antt =====
-- Two groups and their members, and the theorems on them.
use notification_platform.Base.{List, String, some, [], ◌∷◌, ◌≡◌, refl}
use notification_platform.Groups.Page.{
  Group, Person, GroupsPage, initial, toggle_group, members_loaded,
}
use notification_platform.Groups.Runs.{Modal, Reach, here, next, view, reply, Reach-members}

abbrev staff : Group
staff = record { id = "g1"; tenant_id = "t1"; name = "Staff"; description = ""; status = "active" }

abbrev clients : Group
clients = record {
  id = "g2";
  tenant_id = "t1";
  name = "Clients";
  description = "";
  status = "active";
}

abbrev ana : Person
ana = record { id = "c1"; name = "Ana"; email = "ana@example.com"; phone = "" }

abbrev listing : GroupsPage
listing = record initial { items = staff ∷ clients ∷ [] }

-- The page after the first group was opened.
abbrev expanded_first : GroupsPage
expanded_first = record listing { expanded = some "g1"; members = ana ∷ [] }

abbrev members_of : String → List Person
members_of id = ana ∷ []

-- The first group's members were asked for and have come.
abbrev one_viewed : Modal
one_viewed = record {
  page = record initial { expanded = some "g1"; members = ana ∷ [] };
  awaited = [];
}

one_viewed_reached : Reach members_of one_viewed
unfolding initial toggle_group members_loaded
one_viewed_reached = next (next here (view "g1")) (reply "g1" [] refl)

Reach-members_example : one_viewed.page.members ≡ ana ∷ []
Reach-members_example = Reach-members members_of one_viewed "g1" one_viewed_reached refl refl
