-- ===== src/Send/Sms.antt =====
-- SendNotificationPage.tsx: `smsStats`.
use notification_platform.Base.{
  ℕ, ◌+◌, ◌-◌, ◌*◌, ◌/◌, ◌≤◌, ◌<◌, String, Bool, true, false, arith, leb, if◌then◌else◌,
  utf16_length,
}

pub record SmsStats : Type 0 where
  pub length : ℕ
  pub segments : ℕ
  pub limit : ℕ

abbrev single : Bool → ℕ
single unicode = if unicode then 70 else 160

abbrev multipart : Bool → ℕ
multipart unicode = if unicode then 67 else 153

-- `Math.ceil(a / b)`
abbrev ceil_div : ℕ → ℕ → ℕ
ceil_div a b = (a + b - 1) / b

unfoldable pub stats_of_length : ℕ → Bool → SmsStats
stats_of_length n unicode = record {
  length = n;
  segments = if leb n (single unicode) then 1 else ceil_div n (multipart unicode);
  limit = if leb n (single unicode) then single unicode else multipart unicode;
}

unfoldable pub sms_stats : String → Bool → SmsStats
unfolding stats_of_length
sms_stats value unicode = stats_of_length (utf16_length value) unicode

-- The segments counted are the fewest of the stated size that hold the message, and at least one.
abbrev pub IsFewest : SmsStats → Type 0
IsFewest s =
    (1 ≤ s.segments)
    × (s.length ≤ s.segments * s.limit)
    × (1 < s.segments → (s.segments - 1) * s.limit < s.length)

stats-IsFewest : (n : ℕ) (unicode : Bool) → IsFewest (stats_of_length n unicode)
unfolding stats_of_length
stats-IsFewest n true = ground arith
stats-IsFewest n false = ground arith

-- For every message, plain or Unicode, the segments counted are at least one, hold the whole message
-- at the size shown beside them, and are as few as that size allows.
pub sms_stats-IsFewest : (value : String) (unicode : Bool) → IsFewest (sms_stats value unicode)
unfolding sms_stats
sms_stats-IsFewest value unicode = stats-IsFewest (utf16_length value) unicode

-- A longer message never takes fewer segments.
pub segments_mono :
    (m n : ℕ) (unicode : Bool)
    → m ≤ n
    → (stats_of_length m unicode).segments ≤ (stats_of_length n unicode).segments
unfolding stats_of_length
segments_mono m n true h = ground arith
segments_mono m n false h = ground arith
