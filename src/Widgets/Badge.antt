-- ===== src/Widgets/Badge.antt =====
-- notification-admin-ui/src/components/StatusBadge.tsx and StatusToggle.tsx. `toLowerCase` and the
-- replacement of underscores are the language's; lower-casing is a parameter.
use notification_platform.Base.{
  String, Bool, true, false, not, List, [], ◌∷◌, ◌≡◌, refl, ◌↔◌, arith, contains, contains-Member,
  Member, if◌then◌else◌, or_text, every, every-Member,
}

unfoldable pub positive : List String
positive = "active" ∷ "enabled" ∷ "sent" ∷ "approved" ∷ "healthy" ∷ "connected" ∷ "sending" ∷ []

unfoldable pub negative : List String
negative = "inactive" ∷ "disabled" ∷ "failed" ∷ "revoked" ∷ "cancelled" ∷ "dead" ∷ "blocked" ∷ []

pub data Status : Type 0 where
  text : String → Status
  flag : Bool → Status
  missing : Status

pub data Tone : Type 0 where
  emerald red amber : Tone

module _ (to_lower : String → String) where
  unfoldable pub badge_value : Status → String
  badge_value (text s) = to_lower (or_text s "unknown")
  badge_value (flag b) = if b then "enabled" else "disabled"
  badge_value missing = to_lower "unknown"

-- The colours and the icon of a badge.
unfoldable pub tone : String → Tone
tone value =
    if contains positive value then emerald else if contains negative value then red else amber

unfoldable pub badge_tone : (String → String) → Status → Tone
unfolding tone
badge_tone to_lower status = tone (badge_value to_lower status)

disjoint : every (λ s. not (contains positive s)) negative ≡ true
unfolding contains positive negative
disjoint = refl

negative_only : (s : String) → contains negative s ≡ true → contains positive s ≡ false
negative_only s h = ground (
  arith,
  every-Member (λ t. not (contains positive t)) negative s disjoint
      ((contains-Member negative s).0 h),
)

tone_cases :
    (s : String)
    → ((tone s ≡ emerald) ↔ (contains positive s ≡ true))
      × ((tone s ≡ red) ↔ (contains negative s ≡ true))
unfolding tone
tone_cases s = ground (arith, negative_only s)

-- A badge is green exactly for a positive status and red exactly for a negative one; the two lists
-- share no status, so the order of the tests is immaterial.
pub badge_tone_iff :
    (to_lower : String → String) (status : Status)
    → ((badge_tone to_lower status ≡ emerald) ↔ Member (badge_value to_lower status) positive)
      × ((badge_tone to_lower status ≡ red) ↔ Member (badge_value to_lower status) negative)
unfolding badge_tone
badge_tone_iff to_lower status =
    let s = badge_value to_lower status in
    let (green, dark) = tone_cases s in
    let (in_green, of_green) = contains-Member positive s in
    let (in_dark, of_dark) = contains-Member negative s in
    (
      ((λ h. in_green (green.0 h)), (λ h. green.1 (of_green h))),
      ((λ h. in_dark (dark.0 h)), (λ h. dark.1 (of_dark h))),
    )
