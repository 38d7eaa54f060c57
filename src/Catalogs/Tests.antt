-- ===== src/Catalogs/Tests.antt =====
-- Two channels of the catalog, and the theorem on them.
use notification_platform.Base.{true, false, none, [], ◌∷◌}
use notification_platform.Catalogs.Channels.{ChannelCatalogItem, ChannelsPage}

abbrev email : ChannelCatalogItem
email = record { channel = "email"; description = ""; tenant_count = 2; enabled = true }

abbrev sms : ChannelCatalogItem
sms = record { channel = "sms"; description = ""; tenant_count = 1; enabled = true }

abbrev channels : ChannelsPage
channels = record {
  items = email ∷ sms ∷ [];
  loading = false;
  saving = "";
  meta = none;
  search = "";
  status_filter = "";
}
