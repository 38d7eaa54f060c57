-- ===== src/Logs/Notifications.antt =====
-- pages/notifications/NotificationsPage.tsx: the handlers of the page, with the list of Listing.
-- `D` is the type of a notification's details.
use notification_platform.Base.{String, Bool, true, false, Option, some}
use notification_platform.Widgets.Paging.{set_page}
use notification_platform.Listing.Rows.{Listing, load}

pub record LogFilter : Type 0 where
  pub search : String
  pub status : String
  pub channel : String

module _ {R : Type 0} where
  -- `updateFilter`: the filter and the page change in one render, whose effect loads the rows.
  unfoldable pub update_filter : LogFilter → Listing LogFilter R → Listing LogFilter R
  unfolding load set_page
  update_filter f l = load (record l { filter = f; paging = set_page 1 l.paging })

-- What the page keeps of the details it shows.
pub record DetailView (D : Type 0) : Type 0 where
  pub error : String
  pub detail : Option D
  pub detail_loading : Bool

module _ {D : Type 0} where
  -- `openDetail` up to its `await`, and its two ends.
  unfoldable pub open_detail : DetailView D → DetailView D
  open_detail v = record v { detail_loading = true; error = "" }

  unfoldable pub detail_loaded : D → DetailView D → DetailView D
  detail_loaded reply v = record v { detail = some reply; detail_loading = false }

  unfoldable pub detail_failed : String → DetailView D → DetailView D
  detail_failed message v = record v { error = message; detail_loading = false }
