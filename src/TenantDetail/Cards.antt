-- ===== src/TenantDetail/Cards.antt =====
-- TenantDetailPage.tsx: the cards of the tabs of capabilities, channels and providers, and the question
-- that the switch of a card asks. `show` prints a number; `number` is that of the action on a row.
pub mod Counts
use Prim.Native.Char.{Char, code}
use Prim.Native.String
use Prim.Native.String.{◌++◌}
use notification_platform.Base.{
  ℕ, String, Bool, true, false, not, List, [], ◌∷◌, map, Dict, or_text, if◌then◌else◌, ◌===◌, ◌==◌,
}
use notification_platform.Widgets.Confirm.{ConfirmIntent, primary, danger}
use notification_platform.Roles.Grouping.{group_by}
use notification_platform.TenantDetail.Page.{Feature, Channel, Provider, Overview}

pub record Card : Type 0 where
  pub key : String
  pub active : Bool
  pub title : String
  pub badges : List String
  pub description : String
  pub code : String
  pub label : String
  pub asks : ConfirmIntent
  pub footer : String

-- `s.replace(/_/g, ' ')`
unfoldable pub spaced : String → String
spaced String.[] = ""
spaced (String.◌∷◌ c s) = if code c == b'_' then " " ++ spaced s else String.◌∷◌ c (spaced s)

-- `confirmToggle`; the name is shown in the body of the question.
unfoldable pub confirm_toggle : String → Bool → ℕ → ConfirmIntent
confirm_toggle kind active action = record {
  title = (if active then "Enable" else "Disable") ++ " " ++ kind;
  confirm_label = if active then "Enable" else "Disable";
  variant = if active then primary else danger;
  on_confirm = action;
}

abbrev verb : Bool → String
verb active = if active then "Disable " else "Enable "

abbrev available : Bool → String → String
available enabled tenant = (if enabled then "Available to " else "Not available to ") ++ tenant

unfoldable pub feature_card : (String → ℕ) → Overview → Feature → Card
unfolding confirm_toggle
feature_card number o f = record {
  key = f.id;
  active = f.enabled;
  title = f.name;
  badges = f.category ∷ [];
  description = f.description;
  code = or_text f.identifier f.feature_key;
  label = verb f.enabled ++ f.name;
  asks = confirm_toggle "capability" (not f.enabled) (number f.id);
  footer = available f.enabled o.tenant_name;
}

unfoldable pub channel_card : (ℕ → String) → (String → ℕ) → Overview → Channel → Card
unfolding confirm_toggle spaced
channel_card show number o c = record {
  key = c.id;
  active = c.enabled;
  title = spaced c.channel;
  badges = c.direction ∷ [];
  description =
      "Rate limit " ++ show c.rate_limit_per_second ++ "/s · Daily quota " ++ show c.daily_quota;
  code = c.channel;
  label = verb c.enabled ++ c.channel ++ " channel";
  asks = confirm_toggle "channel" (not c.enabled) (number c.id);
  footer = available c.enabled o.tenant_name;
}

abbrev pub is_active : Provider → Bool
is_active p = p.status === "active"

unfoldable pub provider_card : (String → ℕ) → Provider → Card
unfolding confirm_toggle
provider_card number p = record {
  key = p.id;
  active = is_active p;
  title = p.provider;
  badges = p.channel ∷ (if p.is_default then "default" ∷ [] else []);
  description =
      if p.is_default
      then "Default provider for this channel."
      else "Configured provider available for this tenant.";
  code = p.id;
  label = verb (is_active p) ++ p.provider ++ " provider";
  asks = confirm_toggle "provider" (not (is_active p)) (number p.id);
  footer =
      if is_active p
      then "Provider is active for this tenant"
      else "Provider is disabled for this tenant";
}

-- The cards of each tab; those of the providers stand by channel.
unfoldable pub feature_cards : (String → ℕ) → Overview → List Card
unfolding feature_card
feature_cards number o = map (feature_card number o) o.features

unfoldable pub channel_cards : (ℕ → String) → (String → ℕ) → Overview → List Card
unfolding channel_card
channel_cards show number o = map (channel_card show number o) o.channels

unfoldable pub grouped_providers : Overview → Dict (List Provider)
unfolding group_by
grouped_providers o = group_by (λ p. p.channel) o.providers

unfoldable pub provider_cards : (String → ℕ) → Overview → List (String × List Card)
unfolding grouped_providers provider_card spaced
provider_cards number o =
    map (λ g. (spaced g.0, map (provider_card number) g.1)) (grouped_providers o)
