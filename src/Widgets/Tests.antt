-- ===== src/Widgets/Tests.antt =====
-- A dialog, a table, and the theorems on them.
use notification_platform.Base.{◌+◌, ◌≤◌, ◌<◌, some, ◌≡◌, arith}
use notification_platform.Widgets.Confirm.{
  danger, ConfirmIntent, Dialog, fresh, request_confirm, press_confirm, asks, presses, Reach, here,
  next, Settled, Reach-Settled,
}
use notification_platform.Widgets.Paging.{
  PaginationMeta, Paging, set_page, window, IsCounted, window_tiles,
}

abbrev revoke : ConfirmIntent
revoke = record { title = "Revoke key"; confirm_label = "Revoke"; variant = danger; on_confirm = 3 }

abbrev revoking : Dialog
revoking = press_confirm (request_confirm revoke fresh)

revoking_reached : Reach revoking
unfolding fresh
revoking_reached = next (next here (asks revoke)) presses

Reach-Settled_example : Settled revoking
Reach-Settled_example = Reach-Settled revoking_reached

-- 30 rows in pages of 25.
abbrev thirty : PaginationMeta
thirty = record { page = 2; per_page = 25; total = 30; total_pages = 2 }

abbrev second : Paging
second = record { page = 2; per_page = 25 }

thirty-IsCounted : IsCounted thirty 25
thirty-IsCounted = record { enough = omega arith; needed = omega arith }

window_tiles_example :
    let w = window (some thirty) second in
    (1 ≤ w.from)
    × (w.from ≤ w.to)
    × (w.to ≤ 30)
    × (w.to + 1 ≤ w.from + 25)
    × (2 < 2 → (window (some thirty) (set_page (2 + 1) second)).from ≡ w.to + 1)
    × (second.page ≡ thirty.total_pages → w.to ≡ 30)
window_tiles_example = window_tiles thirty second thirty-IsCounted (omega arith) (omega arith)
