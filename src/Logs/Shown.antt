-- ===== src/Logs/Shown.antt =====
-- What the pages of logs, the dashboard and the permissions show.

use notification_platform.Base.{
  ◌+◌, ◌≤◌, String, true, false, some, List, [], ◌∷◌, ◌++◌, ◌≡◌, refl, inl, inr, arith, filter,
  eq_iff, ◌===◌, Member, Member-filter, get, distinct_keys,
}
use notification_platform.Widgets.Paging.{Paging, set_page}
use notification_platform.Listing.Rows.{Listing, load}
use notification_platform.Listing.Order.{awaited, Keeps, EndsWith-snoc}
use notification_platform.Roles.Grouping.{rows_of, group_by_rows}
use notification_platform.Logs.Audit.{
  AuditLog, AuditLogsPage, session_of, grouped, view_session, session_viewed,
}
use notification_platform.Logs.Notifications.{LogFilter, update_filter}
use notification_platform.Logs.Dashboard.{
  ChannelStat, DashboardStats, DashboardPage, stats_loaded, largest, max_channel, total,
}
use notification_platform.Logs.Permissions.{PermissionsPage, permission_area, categories}

-- The audit logs are shown in one group for each session, all of them and in their order.
pub grouped_rows :
    (p : AuditLogsPage)
    → ((k : String) → rows_of (get k (grouped p)) ≡ filter (λ item. session_of item === k) p.items)
      × (distinct_keys (grouped p) ≡ true)
unfolding grouped
grouped_rows p = group_by_rows session_of p.items

-- The permissions are shown in one group for each area, all of them and in their order.
pub categories_rows :
    {J : Type 0} (p : PermissionsPage J)
    → ((k : String)
        → rows_of (get k (categories p)) ≡ filter (λ row. permission_area row.key === k) p.items)
      × (distinct_keys (categories p) ≡ true)
unfolding categories
categories_rows p = group_by_rows (λ row. permission_area row.key) p.items

-- Two sessions are opened and the reply for the first comes last: the second is selected, the modal
-- does not load, and every log that it shows is of the first.
pub session_viewed-crossed :
    (a b : String) (rows late : List AuditLog) (log : AuditLog) (p : AuditLogsPage)
    → let q =
        session_viewed a
          (some late)
          (session_viewed b (some rows) (view_session b (view_session a p))) in
      Member log q.selected_logs
      → (q.selected_session ≡ b) × (q.session_loading ≡ false) × (session_of log ≡ a)
unfolding session_viewed view_session
session_viewed-crossed a b rows late log p m = (
  refl,
  refl,
  (eq_iff (session_of log) a).0 ((Member-filter (λ item. session_of item === a) late log).0 m).1,
)

-- A filter of the notification logs is chosen: one request is sent, for the first page, and the
-- table awaits its rows.
pub update_filter-Keeps :
    {R : Type 0} (serve : LogFilter × Paging → R) (f : LogFilter) (l : Listing LogFilter R)
    → let m = update_filter f l in
      let q : LogFilter × Paging = (f, set_page 1 l.paging) in
      (m.pending ≡ l.pending ++ q ∷ []) × Keeps serve m (awaited q)
unfolding update_filter load
update_filter-Keeps serve f l = (refl, (refl, EndsWith-snoc _ l.pending))

largest-bounds :
    (ss : List ChannelStat) (s : ChannelStat)
    → (1 ≤ largest ss) × (Member s ss → s.count ≤ largest ss)
unfolding largest
largest-bounds [] s = (omega arith, (λ m. absurd m))
largest-bounds (x ∷ xs) s =
    let (one, all) = largest-bounds xs s in
    (
      omega (arith, one),
      (λ m. elim m [ inl e ↦ rw (← e) (omega arith) | inr n ↦ omega (arith, all n) ]),
    )

-- The dashboard divides by a number that is not zero, no bar is longer than the whole, and the parts
-- of the outcome are in order and within the total.
pub stats_loaded-bounds :
    (d : DashboardStats) (s : ChannelStat) (p : DashboardPage)
    → Member s d.channels
    → let q = stats_loaded d p in
      (1 ≤ max_channel q)
      × (s.count ≤ max_channel q)
      × (d.sent_today ≤ d.sent_today + d.failed)
      × (d.sent_today + d.failed ≤ total q)
unfolding stats_loaded max_channel total
stats_loaded-bounds d s p m =
    let (one, all) = largest-bounds d.channels s in (one, all m, omega arith, omega arith)
