-- ===== src/Logs/Tests.antt =====
-- A dashboard of two channels, and the theorem on it.
use notification_platform.Base.{[], ◌∷◌}
use notification_platform.Logs.Dashboard.{ChannelStat, DashboardStats}

abbrev email : ChannelStat
email = record { channel = "email"; count = 12 }

abbrev sms : ChannelStat
sms = record { channel = "sms"; count = 7 }

abbrev today : DashboardStats
today = record {
  queued = 1;
  sent_today = 17;
  failed = 2;
  retry_count = 0;
  dead_letter_count = 0;
  active_campaigns = 1;
  ws_connections = 3;
  channels = email ∷ sms ∷ [];
}
