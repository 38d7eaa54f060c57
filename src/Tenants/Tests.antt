-- ===== src/Tenants/Tests.antt =====
-- Two tenants, the replies of one, and the theorems on them.
use notification_platform.Base.{
  true, false, none, some, [], ◌∷◌, ◌≡◌, refl, ◌↔◌, inl, inr, arith, eq_iff, All, Member, contains,
  get, truthy,
}
use notification_platform.Tenants.Provision.{CatalogChannel, save_disabled, channel_grant, payload}
use notification_platform.Tenants.Page.{
  Tenant, TenantsPage, initial, update, handle_edit, OverviewFeature, OverviewChannel, Replies,
  open_edit, edit_loaded, edit_failed, form_of,
}
use notification_platform.Tenants.Edits.{
  Unique, handle_edit-edit_loaded, handle_edit-open_edit, payload-providers_iff,
}

abbrev acme : Tenant
acme = record { id = "t1"; name = "Acme"; slug = "acme"; status = "active"; created_at = "" }

abbrev globex : Tenant
globex = record { id = "t2"; name = "Globex"; slug = "globex"; status = "active"; created_at = "" }

abbrev email : CatalogChannel
email = record { channel = "email"; description = ""; enabled = true }

abbrev sms : CatalogChannel
sms = record { channel = "sms"; description = ""; enabled = true }

abbrev campaigns : OverviewFeature
campaigns = record { feature_key = "campaigns"; enabled = true }

abbrev email_off : OverviewChannel
email_off = record { channel = "email"; enabled = false }

abbrev sms_on : OverviewChannel
sms_on = record { channel = "sms"; enabled = true }

abbrev replies : Replies
replies = record {
  features = campaigns ∷ [];
  channels = email_off ∷ sms_on ∷ [];
  providers =
      (record { channel = "sms"; provider = "twilio"; is_default = true; status = "active" }) ∷ [];
  timezone = some "UTC";
  country = none;
  default_sender = none;
  default_sms = none;
  templates = [];
}

abbrev listing : TenantsPage
listing = record initial { items = acme ∷ globex ∷ []; channels = email ∷ sms ∷ [] }

features-Unique : Unique (λ x. x.feature_key) replies.features
unfolding contains
features-Unique = (refl, tt)

channels-Unique : Unique (λ x. x.channel) replies.channels
unfolding contains
channels-Unique = (ground (arith, eq_iff "sms" "email"), (refl, tt))

tenants-Unique : Unique (λ x. x.id) listing.items
unfolding contains initial
tenants-Unique = (ground (arith, eq_iff "t2" "t1"), (refl, tt))

handle_edit-edit_loaded_example :
    let q = edit_loaded acme replies listing in
    let body = payload q.channels q.form in
    ((handle_edit "t1" q).0 ≡ update "t1" body)
    × (body.name ≡ "Acme")
    × (body.slug ≡ "acme")
    × (contains body.features "campaigns" ≡ true)
    × Member (channel_grant "sms" true) body.channels
handle_edit-edit_loaded_example =
    handle_edit-edit_loaded acme replies listing campaigns sms_on sms features-Unique
      channels-Unique (inl refl) (inr (inl refl)) (inr (inl refl)) refl

handle_edit-open_edit_example :
    let q = open_edit acme listing in
    let body = payload listing.channels q.form in
    (save_disabled q.saving q.form ≡ false)
    × ((edit_failed "Load failed" q).form ≡ q.form)
    × ((handle_edit "t1" q).0 ≡ update "t1" body)
    × (body.features ≡ [])
    × (body.providers ≡ [])
    × (body.settings.timezone ≡ "")
    × (body.settings.country ≡ "")
    × (body.settings.default_sender ≡ "")
    × (body.settings.default_sms ≡ "")
    × All (λ g. g.enabled ≡ false) body.channels
unfolding initial
handle_edit-open_edit_example = handle_edit-open_edit acme "Load failed" listing refl refl refl

payload-providers_iff_example :
    Member
      (record { channel = "sms"; provider = "twilio"; is_default = true })
      (payload listing.channels (form_of acme replies)).providers
    ↔ (Member "sms" (form_of acme replies).channels
        × (get "sms" (form_of acme replies).providers ≡ some "twilio")
        × (truthy "twilio" ≡ true))
payload-providers_iff_example =
    payload-providers_iff listing.channels (form_of acme replies) "sms" "twilio"
