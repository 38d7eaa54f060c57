-- ===== src/Api/Tests.antt =====
-- Sample servers, and the theorems on requests at them.
use notification_platform.Base.{
  ℕ, zero, suc, ◌-◌, ◌<◌, ◌≤◌, String, Bool, true, false, ◌&&◌, ltb, [], none, some, ◌≡◌, refl,
  arith, ◌===◌, if◌then◌else◌,
}
use Prim.Native.String.{◌++◌}
use notification_platform.Api.Errors.{Body, Response, ApiError, api}
use notification_platform.Api.Session.{
  Storage, Request, Reply, answered, Tab, Outcome, threw, with_headers, should_refresh,
  refresh_access_token, api_request,
}
use notification_platform.Api.Retry.{IsSignedOut, api_request-logout, IsBudget, api_request-ends}
use notification_platform.Api.Endless.{Renews, RefusesAndRenews, api_request-endless}

abbrev pub empty_body : Body
empty_body = record {
  message = none;
  error = none;
  detail = none;
  access_token = none;
  refresh_token = none;
  user = none;
}

abbrev pub refusal : Response
refusal = record {
  status = 401;
  status_text = "Unauthorized";
  body = record empty_body { error = some "token  expired " };
}

abbrev pub tokens : Response
tokens = record {
  status = 200;
  status_text = "OK";
  body = record empty_body { access_token = some "a2"; refresh_token = some "r2" };
}

abbrev fine : Response
fine = record { status = 200; status_text = "OK"; body = empty_body }

abbrev is_refresh : Request → Bool
is_refresh r = r.path === "/admin/api/v1/auth/refresh"

-- A server that refuses every call but grants each refresh.
abbrev strict : Request → Unit {0} → Reply × Unit {0}
strict r w = (answered (if is_refresh r then tokens else refusal), tt)

-- A server that refuses everything.
abbrev closed : Request → Unit {0} → Reply × Unit {0}
closed r w = (answered refusal, tt)

-- A server whose world counts the refreshes that it still grants.
abbrev grants : Request → ℕ → Bool
grants r w = is_refresh r && ltb 0 w

abbrev spend : Request → ℕ → Reply × ℕ
spend r w = (answered (if grants r w then tokens else refusal), if grants r w then w - 1 else w)

abbrev pub stored : Storage
stored = record { token = some "a1"; refresh_token = some "r1"; user = none }

abbrev open_tab : {W : Type 0} → W → Tab W
open_tab w = record { storage = stored; pathname = "/users"; logout_events = 0; world = w }

abbrev pub users_call : Request
users_call = record { path = "/admin/api/v1/users"; method = "GET"; headers = []; body = none }

abbrev quoted : String → String
quoted s = "\"" ++ s ++ "\""

pub may_refresh : should_refresh users_call.path ≡ true
unfolding should_refresh
may_refresh = refl

refresh_refused : (refresh_access_token quoted closed (open_tab tt)).0 ≡ false
unfolding refresh_access_token
refresh_refused = refl

api_request-logout_example :
    (e : ApiError) × (t' : Tab (Unit {0})) × (api_request quoted closed 1 users_call (open_tab tt)
      ≡ some (threw (api e), t'))
    × (e.status ≡ 401)
    × (e.code ≡ "AUTHENTICATION_ERROR")
    × IsSignedOut t'
    × (t'.logout_events ≡ 1)
api_request-logout_example =
    api_request-logout quoted closed 0 users_call (open_tab tt) refusal tt may_refresh refl refl
      refresh_refused

spend_keeps : (b : Bool) (w : ℕ) → (if b && ltb 0 w then w - 1 else w) ≤ w
spend_keeps b w = ground arith

spend_falls :
    (w : ℕ) (response : Response)
    → answered (if ltb 0 w then tokens else refusal) ≡ answered response
    → Renews response
    → (if ltb 0 w then w - 1 else w) < w
spend_falls zero response e n = absurd (cc (e, n.fine))
spend_falls (suc w) response e n = grind arith

-- Three refreshes are granted, then the call ends.
spend-IsBudget : IsBudget quoted spend (λ n. n)
spend-IsBudget =
    (λ q w. spend_keeps (is_refresh q) w, λ token w response e n. spend_falls w response e n)

api_request-ends_example :
    (result : Outcome × Tab ℕ) × (api_request quoted spend 4 users_call (open_tab 3) ≡ some result)
api_request-ends_example =
    api_request-ends quoted spend (λ n. n) users_call spend-IsBudget 4 (open_tab 3) (omega arith)

pub tokens-Renews : Renews tokens
tokens-Renews = record { fine = refl; access = refl; refresh = refl }

strict_refuses : RefusesAndRenews quoted strict users_call
unfolding with_headers
strict_refuses = (λ token w. (refusal, refl, refl), λ token w. (tokens, refl, tokens-Renews))

api_request-endless_example : api_request quoted strict 9 users_call (open_tab tt) ≡ none
api_request-endless_example =
    api_request-endless quoted strict users_call strict_refuses may_refresh 9 (open_tab tt) refl
