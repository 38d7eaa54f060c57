-- ===== src/Session/Flight.antt =====
-- notification-admin-ui/src/api/client.ts: `apiRequest` and `refreshAccessToken` as their calls
-- interleave. Each call waits for its own reply or for the one refresh that they share.
use notification_platform.Base.{
  ℕ, ◌+◌, String, Bool, true, false, ◌&&◌, Option, none, some, List, [], ◌∷◌, ◌++◌, map, truthy,
  ◌==◌, if◌then◌else◌,
}
use notification_platform.Api.Errors.{Response}
use notification_platform.Api.Session.{
  Request, Reply, failed, answered, Outcome, threw, settle, should_refresh, finish_refresh,
  no_storage,
}
use notification_platform.Api.Errors.{other}
use notification_platform.Session.Provider.{Provider, sync_logout}

-- Where one call of `apiRequest` stands: its request is on the way, it awaits the shared refresh
-- with the 401 that it got, or it has ended.
pub data Call : Type 0 where
  sent : Request → Option String → Call
  awaiting : Request → Response → Call
  ended : Outcome → Call

pub record Tab : Type 0 where
  pub provider : Provider
  pub flight : Option String  -- the refresh token of `refreshRequest`, while it is not null
  pub calls : List Call
  pub refreshes : ℕ  -- refresh requests sent
  pub answers : ℕ  -- refresh requests answered

-- A new call, with the token in storage.
unfoldable pub start : Request → Tab → Tab
start r t = record t { calls = t.calls ++ sent r t.provider.storage.token ∷ [] }

-- The forced logout, with what the provider does when it hears of it.
unfoldable pub force_logout : Provider → Provider
unfolding sync_logout
force_logout p = sync_logout (record p { storage = no_storage })

-- A call that got a 401: it joins the refresh under way, or starts one, or gives up.
unfoldable pub on_unauthorized : Request → Response → Tab → Call × Tab
unfolding force_logout
on_unauthorized r response t = elim t.provider.storage.refresh_token [
  | none ↦ (ended (settle response), record t { provider = force_logout t.provider })
  | some token ↦
      if truthy token
      then (elim t.flight [
        | some old ↦ (awaiting r response, t)
        | none ↦
            (awaiting r response, record t { flight = some token; refreshes = t.refreshes + 1 })
      ])
      else (ended (settle response), record t { provider = force_logout t.provider })
]

-- The reply to a call that is on its way.
unfoldable pub on_reply : Request → Reply → Tab → Call × Tab
unfolding on_unauthorized
on_reply r (failed message) t = (ended (threw (other message)), t)
on_reply r (answered response) t =
    if response.status == 401 && should_refresh r.path
    then on_unauthorized r response t
    else (ended (settle response), t)

-- What the end of the refresh does to a call: it is sent again with the new token, or ends with its
-- own 401.
unfoldable pub resume : Bool → Option String → Call → Call
resume true token (awaiting r response) = sent r token
resume false token (awaiting r response) = ended (settle response)
resume refreshed token c = c

abbrev pub is_awaiting : Call → Bool
is_awaiting (awaiting r response) = true
is_awaiting c = false

unfoldable pub any_awaiting : List Call → Bool
any_awaiting [] = false
any_awaiting (c ∷ cs) = if is_awaiting c then true else any_awaiting cs

-- The provider once the waiting calls have run on: each that fails forces a logout.
abbrev after_refresh : Bool → Bool → Provider → Provider
after_refresh true waited p = p
after_refresh false true p = force_logout p
after_refresh false false p = p

-- The reply to the refresh under way.
unfoldable pub on_refresh : Reply → Tab → Tab
unfolding finish_refresh force_logout resume any_awaiting
on_refresh reply t =
    let (refreshed, storage) = finish_refresh reply t.provider.storage in
    let p : Provider = record t.provider { storage = storage } in
    record t {
      provider = after_refresh refreshed (any_awaiting t.calls) p;
      flight = none;
      calls = map (resume refreshed storage.token) t.calls;
      answers = t.answers + 1;
    }
