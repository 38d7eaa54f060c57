-- ===== src/Api/Session.antt =====
-- notification-admin-ui/src/api/client.ts: `apiRequest`, the silent refresh and the forced logout,
-- as one caller sees them. The server is a parameter: it answers a request and changes its state.
use notification_platform.Base.{
  ℕ, zero, suc, ◌+◌, String, Bool, true, false, not, ◌&&◌, Option, none, some, [], ◌∷◌, Dict, set,
  includes, truthy, text_or_nil, ◌==◌, ◌===◌, if◌then◌else◌,
}
use Prim.Native.String.{◌++◌}
use notification_platform.Auth.Permissions.{Principal}
use notification_platform.Api.Errors.{
  Body, Response, ok_status, Thrown, api, other, error_of_response,
}

-- The three items of local storage. The user is kept as JSON text; here as the value it stands for.
pub record Storage : Type 0 where
  pub token : Option String
  pub refresh_token : Option String
  pub user : Option Principal

-- `path` with the options of `fetch`. Header names are in lower case.
pub record Request : Type 0 where
  pub path : String
  pub method : String
  pub headers : Dict String
  pub body : Option String

pub data Reply : Type 0 where
  failed : String → Reply
  answered : Response → Reply

-- The browser tab as the client changes it, and the server's state.
pub record Tab (W : Type 0) : Type 0 where
  pub storage : Storage
  pub pathname : String
  pub logout_events : ℕ
  pub world : W

pub data Outcome : Type 0 where
  returned : Body → Outcome
  threw : Thrown → Outcome

abbrev add_authorization : Option String → Dict String → Dict String
add_authorization none headers = headers
add_authorization (some token) headers =
    if truthy token then set "authorization" ("Bearer " ++ token) headers else headers

-- The request that `apiRequest` sends for the given options.
unfoldable pub with_headers : Option String → Request → Request
with_headers token r = record r {
  headers = add_authorization token (set "content-type" "application/json" r.headers);
}

unfoldable pub should_refresh : String → Bool
unfolding includes
should_refresh path =
    not (includes path "/admin/api/v1/auth/login")
    && not (includes path "/admin/api/v1/auth/refresh")

-- The refresh request; `encode` is `JSON.stringify({ refresh_token })`.
abbrev pub refresh_request : (String → String) → String → Request
refresh_request encode refresh_token = record {
  path = "/admin/api/v1/auth/refresh";
  method = "POST";
  headers = ("content-type", "application/json") ∷ [];
  body = some (encode refresh_token);
}

abbrev keep_user : Option Principal → Option Principal → Option Principal
keep_user none old = old
keep_user (some user) old = some user

-- The `then` of the refresh: it answers whether there is a new pair of tokens, and stores it.
unfoldable pub store_tokens : Response → Storage → Bool × Storage
store_tokens r s =
    if ok_status r.status
      && truthy (text_or_nil r.body.access_token)
      && truthy (text_or_nil r.body.refresh_token)
    then (
      true,
      record {
        token = r.body.access_token;
        refresh_token = r.body.refresh_token;
        user = keep_user r.body.user s.user;
      },
    )
    else (false, s)

-- The `catch` of the refresh.
unfoldable pub finish_refresh : Reply → Storage → Bool × Storage
unfolding store_tokens
finish_refresh (failed message) s = (false, s)
finish_refresh (answered r) s = store_tokens r s

abbrev pub no_storage : Storage
no_storage = record { token = none; refresh_token = none; user = none }

unfoldable pub clear_auth_and_redirect : {W : Type 0} → Tab W → Tab W
clear_auth_and_redirect t = record t {
  storage = no_storage;
  logout_events = t.logout_events + 1;
  pathname = if t.pathname === "/login" then t.pathname else "/login";
}

-- What `apiRequest` does with a reply that it does not retry.
unfoldable pub settle : Response → Outcome
settle r = if ok_status r.status then returned r.body else threw (api (error_of_response r))

module _ {W : Type 0} (encode : String → String) (serve : Request → W → Reply × W) where
  unfoldable pub refresh_with : String → Tab W → Bool × Tab W
  unfolding finish_refresh
  refresh_with refresh_token t =
      let (reply, world) = serve (refresh_request encode refresh_token) t.world in
      let (done, storage) = finish_refresh reply t.storage in
      (done, record t { storage = storage; world = world })

  abbrev pub refresh_by : Option String → Tab W → Bool × Tab W
  refresh_by none t = (false, t)
  refresh_by (some token) t = if truthy token then refresh_with token t else (false, t)

  -- `refreshAccessToken`, with no other refresh under way.
  unfoldable pub refresh_access_token : Tab W → Bool × Tab W
  unfolding refresh_with
  refresh_access_token t = refresh_by t.storage.refresh_token t

  -- One round of `apiRequest`: an outcome, or `none` where it calls itself again.
  unfoldable pub attempt : Request → Tab W → Option Outcome × Tab W
  unfolding settle
  attempt r t =
      let (reply, world) = serve (with_headers t.storage.token r) t.world in
      let t' : Tab W = record t { world = world } in
      elim reply [
        | failed message ↦ (some (threw (other message)), t')
        | answered response ↦
            if response.status == 401 && should_refresh r.path
            then (let (refreshed, t'') = refresh_access_token t' in
                if refreshed
                then (none, t'')
                else (some (settle response), clear_auth_and_redirect t''))
            else (some (settle response), t')
      ]

  -- `apiRequest`, for at most so many rounds; `none` means that it is still calling itself.
  unfoldable pub api_request : ℕ → Request → Tab W → Option (Outcome × Tab W)
  api_request zero r t = none
  api_request (suc rounds) r t =
      let again = api_request rounds r (attempt r t).1 in
      elim (attempt r t).0 [ none ↦ again | some outcome ↦ some (outcome, (attempt r t).1) ]
