-- ===== src/Api/Retry.antt =====
-- How `apiRequest` of client.ts ends: retries, refused refreshes, and when it ends at all.
use notification_platform.Base.{
  ℕ, zero, suc, ◌+◌, ◌<◌, ◌≤◌, String, Bool, true, false, none, some, ◌≡◌, ap, inl, inr, arith,
  eq_iff, Option-cases,
}
use notification_platform.Api.Errors.{
  Response, api, other, ApiError, error_of_response, error_code_for_status,
}
use notification_platform.Api.Session.{
  Request, Reply, failed, answered, Tab, Outcome, threw, with_headers, should_refresh,
  refresh_request, no_storage, clear_auth_and_redirect, settle, refresh_access_token, attempt,
  api_request,
}
use notification_platform.Api.Endless.{Renews, attempt-retries}

-- A tab that is signed out: nothing in storage, at the login page.
abbrev pub IsSignedOut : {W : Type 0} → Tab W → Type 0
IsSignedOut t = (t.storage ≡ no_storage) × (t.pathname ≡ "/login")

-- The outcome of a reply that is not retried.
abbrev pub outcome_of : Reply → Outcome
outcome_of (failed message) = threw (other message)
outcome_of (answered r) = settle r

clear-IsSignedOut :
    {W : Type 0} (t : Tab W)
    → IsSignedOut (clear_auth_and_redirect t)
      × ((clear_auth_and_redirect t).logout_events ≡ t.logout_events + 1)
unfolding clear_auth_and_redirect
clear-IsSignedOut t = ground (arith, eq_iff t.pathname "/login")

error_of-401 :
    (r : Response)
    → r.status ≡ 401
    → ((error_of_response r).code ≡ "AUTHENTICATION_ERROR") × ((error_of_response r).status ≡ 401)
unfolding error_of_response error_code_for_status
error_of-401 r h = ground arith

settle-401 : (r : Response) → r.status ≡ 401 → settle r ≡ threw (api (error_of_response r))
unfolding settle
settle-401 r h = ground arith

module _ {W : Type 0} (encode : String → String) (serve : Request → W → Reply × W) where
  -- A login or refresh call is answered in one round, whatever the reply, and leaves storage alone.
  pub api_request-direct :
      (rounds : ℕ) (r : Request) (t : Tab W)
      → should_refresh r.path ≡ false
      → let answer = serve (with_headers t.storage.token r) t.world in
        api_request encode serve (suc rounds) r t
        ≡ some (outcome_of answer.0, record t { world = answer.1 })
  unfolding api_request attempt
  api_request-direct rounds r t h = ground arith

  refresh-logout_events :
      (t : Tab W) → (refresh_access_token encode serve t).1.logout_events ≡ t.logout_events
  unfolding refresh_access_token
  refresh-logout_events t = ground arith

  -- A 401 whose refresh gives no tokens signs the tab out, dispatches one logout event, and throws
  -- an `ApiError` of status 401 and code AUTHENTICATION_ERROR.
  pub api_request-logout :
      (rounds : ℕ) (r : Request) (t : Tab W) (response : Response) (w : W)
      → should_refresh r.path ≡ true
      → serve (with_headers t.storage.token r) t.world ≡ (answered response, w)
      → response.status ≡ 401
      → (refresh_access_token encode serve (record t { world = w })).0 ≡ false
      → (e : ApiError) × (t' : Tab W) × (api_request encode serve (suc rounds) r t
          ≡ some (threw (api e), t'))
        × (e.status ≡ 401)
        × (e.code ≡ "AUTHENTICATION_ERROR")
        × IsSignedOut t'
        × (t'.logout_events ≡ t.logout_events + 1)
  unfolding api_request attempt
  api_request-logout rounds r t response w h s u f =
      let after : Bool × Tab W = refresh_access_token encode serve (record t { world = w }) in
      let (code, status) = error_of-401 response u in
      let (out, events) = clear-IsSignedOut after.1 in
      let kept = refresh-logout_events (record t { world = w }) in
      (
        error_of_response response,
        clear_auth_and_redirect after.1,
        ground (arith, settle-401 response u),
        status,
        code,
        out,
        ground arith,
      )

  -- The number of rounds allowed makes no difference once the call ends.
  pub api_request-more :
      (rounds more : ℕ) (r : Request) (t : Tab W) (result : Outcome × Tab W)
      → api_request encode serve rounds r t ≡ some result
      → api_request encode serve (rounds + more) r t ≡ some result
  unfolding api_request
  api_request-more zero more r t result h = cc
  api_request-more (suc rounds) more r t result h =
      let e : suc rounds + more ≡ suc (rounds + more) = omega arith in
      rw e (ground (arith, api_request-more rounds more r (attempt encode serve r t).1 result))

  -- The server can answer only so many refreshes with new tokens: `budget` bounds those left, each of
  -- them lowers it, and no request raises it.
  abbrev pub IsBudget : (W → ℕ) → Type 0
  IsBudget budget =
      ((q : Request) (w : W) → budget (serve q w).1 ≤ budget w)
      × ((token : String) (w : W) (tokens : Response)
          → (serve (refresh_request encode token) w).0 ≡ answered tokens
          → Renews tokens
          → budget (serve (refresh_request encode token) w).1 < budget w)

  attempt-spends :
      (budget : W → ℕ) (r : Request)
      → IsBudget budget
      → (t : Tab W) → (attempt encode serve r t).0 ≡ none
      → budget (attempt encode serve r t).1.world < budget t.world
  attempt-spends budget r limit t again =
      let w = (serve (with_headers t.storage.token r) t.world).1 in
      let (old, tokens, _, answer, new, _, left) = (attempt-retries encode serve r t again).0 in
      omega (
        arith,
        limit.0 (with_headers t.storage.token r) t.world,
        limit.1 old w tokens answer new,
        ap budget left,
      )

  -- A call ends, with a result, if the server can answer only so many refreshes with new tokens: within
  -- one round more than are left, where each of them lowers `budget` and no request raises it.
  pub api_request-ends :
      (budget : W → ℕ) (r : Request)
      → IsBudget budget
      → (rounds : ℕ) (t : Tab W) → budget t.world < rounds
      → (result : Outcome × Tab W) × (api_request encode serve rounds r t ≡ some result)
  unfolding api_request
  api_request-ends budget r limit zero t h = absurd (omega arith)
  api_request-ends budget r limit (suc rounds) t h =
      elim (Option-cases (attempt encode serve r t).0) [
        | inl again ↦
            let (result, e) =
              api_request-ends budget r limit rounds (attempt encode serve r t).1
                (omega (arith, attempt-spends budget r limit t again)) in
            (result, ground arith)
        | inr (outcome, done) ↦ ((outcome, (attempt encode serve r t).1), ground arith)
      ]
