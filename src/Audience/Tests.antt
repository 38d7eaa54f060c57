-- ===== src/Audience/Tests.antt =====
-- A contact that is edited, a draft campaign, and the theorems on them.
use notification_platform.Base.{true, false, none, refl, inl, arith, eq_iff, trim}
use notification_platform.Audience.Contacts.{Contact, ContactsPage, initial, open_create}
use notification_platform.Audience.Saving.{IsTidy}
use notification_platform.Audience.Campaigns.{Campaign, Rights}

abbrev ana : Contact
ana = record {
  id = "c1";
  tenant_id = "t1";
  name = "Ana";
  email = "ana@example.com";
  phone = "";
  status = "active";
  external_ref = none;
}

abbrev listing : ContactsPage
listing = initial true

ana-IsTidy : IsTidy ana
unfolding trim
ana-IsTidy = record {
  name = (refl, ground (arith, eq_iff "Ana" ""));
  email = refl;
  phone = refl;
  address = inl (ground (arith, eq_iff "ana@example.com" ""));
  external_ref = (ground arith, refl);
}

abbrev creating : ContactsPage
creating = open_create listing

abbrev draft : Campaign
draft = record {
  id = "k1";
  tenant_id = "t1";
  name = "Spring";
  description = "";
  status = "draft";
  scheduled_at = "";
  created_at = "";
}

abbrev approver : Rights
approver = record { approve = true; send = false; cancel = false }
