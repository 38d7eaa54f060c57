-- ===== src/Logs/Audit.antt =====
-- pages/audit-logs/AuditLogsPage.tsx: the state of the page and its handlers, with the toasts left
-- out and the list's query in Listing.
use notification_platform.Base.{
  String, Bool, true, false, Option, none, some, List, [], ◌∷◌, filter, ◌===◌, or_text, text_or_nil,
  Dict,
}
use notification_platform.Widgets.Paging.{PaginationMeta}
use notification_platform.Api.Query.{Param, text, number}
use notification_platform.Roles.Grouping.{group_by}

pub record AuditLog : Type 0 where
  pub id : String
  pub action : String
  pub actor_type : String
  pub actor_user_id : String
  pub resource_type : String
  pub resource_id : String
  pub ip_address : String
  pub request_id : Option String
  pub session_id : Option String
  pub created_at : String

pub record AuditLogsPage : Type 0 where
  pub items : List AuditLog
  pub loading : Bool
  pub selected_session : String
  pub selected_logs : List AuditLog
  pub session_loading : Bool
  pub tenant_filter : String
  pub search : String
  pub meta : Option PaginationMeta

unfoldable pub initial : AuditLogsPage
initial = record {
  items = [];
  loading = true;
  selected_session = "";
  selected_logs = [];
  session_loading = false;
  tenant_filter = "";
  search = "";
  meta = none;
}

-- The effect that loads the list, and its two ends.
unfoldable pub load : AuditLogsPage → AuditLogsPage
load p = record p { loading = true }

unfoldable pub loaded : List AuditLog → Option PaginationMeta → AuditLogsPage → AuditLogsPage
loaded items meta p = record p { items = items; meta = meta; loading = false }

unfoldable pub load_failed : AuditLogsPage → AuditLogsPage
load_failed p = record p { loading = false }

-- `item.session_id || 'No session'`
abbrev pub session_of : AuditLog → String
session_of item = or_text (text_or_nil item.session_id) "No session"

-- `grouped`
unfoldable pub grouped : AuditLogsPage → Dict (List AuditLog)
unfolding group_by
grouped p = group_by session_of p.items

-- `viewSession` up to its `await`, and the parameters of its request.
unfoldable pub view_session : String → AuditLogsPage → AuditLogsPage
view_session session_id p = record p { selected_session = session_id; session_loading = true }

unfoldable pub session_params : String → AuditLogsPage → Dict Param
session_params session_id p =
    ("tenant_id", text p.tenant_filter) ∷ ("q", text session_id) ∷ ("per_page", number 100) ∷ []

-- Its end, with the rows of the reply or none if it threw.
unfoldable pub session_viewed : String → Option (List AuditLog) → AuditLogsPage → AuditLogsPage
session_viewed session_id none p = record p { selected_logs = []; session_loading = false }
session_viewed session_id (some rows) p = record p {
  selected_logs = filter (λ item. session_of item === session_id) rows;
  session_loading = false;
}
