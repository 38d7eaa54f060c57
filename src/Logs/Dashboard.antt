-- ===== src/Logs/Dashboard.antt =====
-- pages/dashboard/DashboardPage.tsx: the state of the page and the numbers that it draws. The rate of
-- success, which is not a whole number, is left out; the widths are kept as fractions of `max_channel`.
use Prim.Native.Nat.{max}
use notification_platform.Base.{
  ℕ, ◌+◌, String, Bool, true, false, Option, none, some, List, [], ◌∷◌,
}

pub record ChannelStat : Type 0 where
  pub channel : String
  pub count : ℕ

pub record DashboardStats : Type 0 where
  pub queued : ℕ
  pub sent_today : ℕ
  pub failed : ℕ
  pub retry_count : ℕ
  pub dead_letter_count : ℕ
  pub active_campaigns : ℕ
  pub ws_connections : ℕ
  pub channels : List ChannelStat

pub record DashboardPage : Type 0 where
  pub stats : Option DashboardStats
  pub loading : Bool
  pub error : Option String

unfoldable pub initial : DashboardPage
initial = record { stats = none; loading = true; error = none }

-- The effect's request and its two ends.
unfoldable pub stats_loaded : DashboardStats → DashboardPage → DashboardPage
stats_loaded reply p = record p { stats = some reply; loading = false }

unfoldable pub stats_failed : String → DashboardPage → DashboardPage
stats_failed message p = record p { error = some message; loading = false }

-- `Math.max(1, ...)` of the counts.
unfoldable pub largest : List ChannelStat → ℕ
largest [] = 1
largest (s ∷ ss) = max s.count (largest ss)

unfoldable pub max_channel : DashboardPage → ℕ
unfolding largest
max_channel p = elim p.stats [ none ↦ 1 | some s ↦ largest s.channels ]

unfoldable pub total : DashboardPage → ℕ
total p = elim p.stats [ none ↦ 0 | some s ↦ s.sent_today + s.failed + s.queued ]
