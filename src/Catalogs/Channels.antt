-- ===== src/Catalogs/Channels.antt =====
-- pages/channels/ChannelsPage.tsx: the state of the page and its handlers, with the confirmation and
-- the toasts left out. What follows the reply to a request is a function of its own.
use notification_platform.Base.{
  ℕ, String, Bool, true, false, not, ◌||◌, Option, none, List, [], ◌∷◌, map, ◌===◌, if◌then◌else◌,
  Dict,
}
use notification_platform.Widgets.Paging.{PaginationMeta}

pub record ChannelCatalogItem : Type 0 where
  pub channel : String
  pub description : String
  pub tenant_count : ℕ
  pub enabled : Bool

abbrev pub channel_modes : Dict String
channel_modes =
    ("email", "one_way/two_way")
    ∷ ("sms", "one_way/two_way")
    ∷ ("fcm", "one_way")
    ∷ ("websocket", "two_way")
    ∷ ("in_app", "two_way")
    ∷ ("whatsapp", "two_way")
    ∷ ("web_push", "one_way")
    ∷ []

pub record ChannelsPage : Type 0 where
  pub items : List ChannelCatalogItem
  pub loading : Bool
  pub saving : String
  pub meta : Option PaginationMeta
  pub search : String
  pub status_filter : String

unfoldable pub initial : ChannelsPage
initial = record {
  items = [];
  loading = true;
  saving = "";
  meta = none;
  search = "";
  status_filter = "";
}

-- The effect that loads the list, and its two ends.
unfoldable pub load : ChannelsPage → ChannelsPage
load p = record p { loading = true }

unfoldable pub loaded :
    List ChannelCatalogItem → Option PaginationMeta → ChannelsPage → ChannelsPage
loaded items meta p = record p { items = items; meta = meta; loading = false }

unfoldable pub load_failed : ChannelsPage → ChannelsPage
load_failed p = record p { loading = false }

-- The body of the request for a channel.
pub record SetChannel : Type 0 where
  pub channel : String
  pub enabled : Bool

-- `toggle` up to its `await`.
unfoldable pub toggle : ChannelCatalogItem → ChannelsPage → SetChannel × ChannelsPage
toggle item p = (
  record { channel = item.channel; enabled = not item.enabled },
  record p { saving = item.channel },
)

-- `setItems` of the reply: the row as it is by then is flipped.
abbrev pub flip : String → ChannelCatalogItem → ChannelCatalogItem
flip channel x = if x.channel === channel then record x { enabled = not x.enabled } else x

unfoldable pub toggled : ChannelCatalogItem → ChannelsPage → ChannelsPage
toggled item p = record p { items = map (flip item.channel) p.items; saving = "" }

unfoldable pub toggle_failed : ChannelsPage → ChannelsPage
toggle_failed p = record p { saving = "" }

-- Whether the switch of a row is disabled.
unfoldable pub switch_disabled : Bool → ChannelCatalogItem → ChannelsPage → Bool
switch_disabled can_update item p = not can_update || p.saving === item.channel
