-- ===== src/TenantDetail/Guide.antt =====
-- notification-admin-ui/src/pages/integration/IntegrationGuide.tsx, which the tenant page shows in a
-- tab: its state and its handlers. `D` is the type of the server's integration data.
pub mod Examples
pub mod Tabs
use notification_platform.Base.{
  ℕ, String, Bool, true, false, Option, none, some, truthy, if◌then◌else◌, ◌≡◌, refl,
}
use notification_platform.Api.Errors.{Thrown, get_error_message}

pub record Guide (D : Type 0) : Type 0 where
  pub reply : Option D
  pub loading : Bool
  pub error : String
  pub tab : String
  pub copied : String

-- What is drawn: one of the notices, or the guide.
pub data Drawn (D : Type 0) : Type 0 where
  waiting empty : Drawn D
  failure : String → Drawn D
  guide : D → Drawn D

module _ {D : Type 0} where
  unfoldable pub initial_guide : Guide D
  initial_guide = record { reply = none; loading = true; error = ""; tab = "curl"; copied = "" }

  -- The effect on the endpoint, and its two ends; `show` prints a number.
  unfoldable pub load_guide : Guide D → Guide D
  load_guide g = record g { loading = true }

  unfoldable pub guide_loaded : D → Guide D → Guide D
  guide_loaded reply g = record g { reply = some reply; error = ""; loading = false }

  unfoldable pub guide_failed : (ℕ → String) → Thrown → Guide D → Guide D
  guide_failed show err g = record g {
    error = get_error_message show err "Unable to load integration guide";
    loading = false;
  }

  unfoldable pub choose_tab : String → Guide D → Guide D
  choose_tab key g = record g { tab = key }

  -- `copy`, once the text is written, and the end of its timer.
  unfoldable pub text_copied : String → Guide D → Guide D
  text_copied id g = record g { copied = id }

  unfoldable pub copied_timer : Guide D → Guide D
  copied_timer g = record g { copied = "" }

  abbrev drawn_reply : Option D → Drawn D
  drawn_reply none = empty
  drawn_reply (some d) = guide d

  -- The three early returns.
  unfoldable pub drawn : Guide D → Drawn D
  drawn g =
      if g.loading then waiting else if truthy g.error then failure g.error else drawn_reply g.reply

  -- After a failed load, a reply shows the guide again.
  pub drawn-guide_loaded :
      (show : ℕ → String) (err : Thrown) (d : D) (g : Guide D)
      → drawn (guide_loaded d (load_guide (guide_failed show err g))) ≡ guide d
  unfolding drawn guide_loaded load_guide guide_failed
  drawn-guide_loaded show err d g = refl

  -- Two texts are copied one after the other: the timer of the first takes away the mark of the
  -- second.
  pub copied_timer-early :
      (a b : String) (g : Guide D) → (copied_timer (text_copied b (text_copied a g))).copied ≡ ""
  unfolding copied_timer text_copied
  copied_timer-early a b g = refl
