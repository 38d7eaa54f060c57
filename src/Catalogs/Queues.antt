-- ===== src/Catalogs/Queues.antt =====
-- pages/queues/QueueControlsPage.tsx: the state of the page, its handlers and the buttons of a row,
-- with the toasts left out. What follows the reply to a request is a function of its own.
use notification_platform.Base.{
  ℕ, String, Bool, true, false, not, ◌&&◌, Option, none, some, List, [], ◌∷◌, filter, ◌===◌,
}
use notification_platform.Widgets.Paging.{PaginationMeta}

pub record QueueControl : Type 0 where
  pub id : String
  pub tenant_id : String
  pub channel : String
  pub queue_name : String
  pub status : String
  pub max_attempts : ℕ
  pub retry_delay_seconds : ℕ
  pub notes : String
  pub updated_at : String

pub record QueueControlsPage : Type 0 where
  pub items : List QueueControl
  pub loading : Bool
  pub tenant_filter : String
  pub search : String
  pub channel_filter : String
  pub status_filter : String
  pub saving : String
  pub meta : Option PaginationMeta

unfoldable pub initial : QueueControlsPage
initial = record {
  items = [];
  loading = true;
  tenant_filter = "";
  search = "";
  channel_filter = "";
  status_filter = "";
  saving = "";
  meta = none;
}

-- `load` up to the reply, and its two ends.
unfoldable pub load : QueueControlsPage → QueueControlsPage
load p = record p { loading = true }

unfoldable pub loaded :
    List QueueControl → Option PaginationMeta → QueueControlsPage → QueueControlsPage
loaded items meta p = record p { items = items; meta = meta; loading = false }

unfoldable pub load_failed : QueueControlsPage → QueueControlsPage
load_failed p = record p { loading = false }

-- The request for the status of a queue.
pub record SetQueue : Type 0 where
  pub id : String
  pub status : String

-- `updateStatus` up to its `await`, and its end, with the error if it threw.
unfoldable pub update_status :
    QueueControl → String → QueueControlsPage → SetQueue × QueueControlsPage
update_status item status p =
    (record { id = item.id; status = status }, record p { saving = item.id })

unfoldable pub status_updated : Option String → QueueControlsPage → QueueControlsPage
unfolding load
status_updated none p = record (load p) { saving = "" }
status_updated (some message) p = record p { saving = "" }

-- The buttons Resume, Pause and Stop that a row has, as the statuses that they ask for.
unfoldable pub queue_actions : Bool → QueueControl → List String
queue_actions can_update item =
    filter (λ status. not (item.status === status) && can_update)
      ("active" ∷ "paused" ∷ "stopped" ∷ [])
