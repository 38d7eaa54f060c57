-- ===== src/Api/Endless.antt =====
-- `apiRequest` of client.ts against a server that refuses the call but grants every refresh, and
-- the tokens that a retry uses.
use notification_platform.Base.{
  ℕ, zero, suc, String, true, Option, none, some, ◌≡◌, refl, inl, inr, arith, truthy, text_or_nil,
  Bool-cases, get, get-set,
}
use Prim.Native.String.{◌++◌}
use notification_platform.Api.Errors.{Response, ok_status}
use notification_platform.Api.Session.{
  Storage, Request, Reply, failed, answered, Tab, with_headers, should_refresh, refresh_request,
  store_tokens, finish_refresh, refresh_with, refresh_by, refresh_access_token, attempt,
  api_request,
}

-- The reply to a refresh that yields a new pair of tokens.
pub record Renews (r : Response) : Type 0 where
  pub fine : ok_status r.status ≡ true
  pub access : truthy (text_or_nil r.body.access_token) ≡ true
  pub refresh : truthy (text_or_nil r.body.refresh_token) ≡ true

pub store_tokens-Renews :
    (r : Response) (s : Storage)
    → Renews r
    → ((store_tokens r s).0 ≡ true)
      × ((store_tokens r s).1.token ≡ r.body.access_token)
      × ((store_tokens r s).1.refresh_token ≡ r.body.refresh_token)
unfolding store_tokens
store_tokens-Renews r s h = ground arith

Renews-of_store_tokens : (r : Response) (s : Storage) → (store_tokens r s).0 ≡ true → Renews r
unfolding store_tokens
Renews-of_store_tokens r s h = ground arith

-- Where the tokens of a storage come from.
abbrev pub HoldsTokensOf : Response → Storage → Type 0
HoldsTokensOf r s = (s.token ≡ r.body.access_token) × (s.refresh_token ≡ r.body.refresh_token)

pub finish_refresh_sound :
    (reply : Reply) (s : Storage)
    → (finish_refresh reply s).0 ≡ true
    → (r : Response) × (reply ≡ answered r) × Renews r × HoldsTokensOf r (finish_refresh reply s).1
unfolding finish_refresh
finish_refresh_sound (failed message) s h = cc
finish_refresh_sound (answered r) s h =
    let n = Renews-of_store_tokens r s h in
    (r, refl, n, ((store_tokens-Renews r s n).1, (store_tokens-Renews r s n).2))

authorization-with_headers :
    (token : Option String) (r : Request)
    → truthy (text_or_nil token) ≡ true
    → get "authorization" (with_headers token r).headers ≡ some ("Bearer " ++ text_or_nil token)
unfolding with_headers
authorization-with_headers none r h = cc
authorization-with_headers (some token) r h = rw h (simp get-set)

module _ {W : Type 0} (encode : String → String) (serve : Request → W → Reply × W) where
  -- A refresh that succeeds: the token it sent, the server's reply, what is stored, and the world left.
  abbrev pub Refreshed : Tab W → Tab W → Type 0
  Refreshed t t' =
      (old : String) × (r : Response) × (t.storage.refresh_token ≡ some old)
      × ((serve (refresh_request encode old) t.world).0 ≡ answered r)
      × Renews r
      × HoldsTokensOf r t'.storage
      × (t'.world ≡ (serve (refresh_request encode old) t.world).1)

  refresh_with_sound :
      (old : String) (t : Tab W)
      → t.storage.refresh_token ≡ some old
      → (refresh_with encode serve old t).0 ≡ true
      → Refreshed t (refresh_with encode serve old t).1
  unfolding refresh_with
  refresh_with_sound old t q h =
      let (r, e, n, k) =
        finish_refresh_sound (serve (refresh_request encode old) t.world).0 t.storage h in
      (old, r, q, e, n, k, refl)

  refresh_by_sound :
      (o : Option String) (t : Tab W)
      → t.storage.refresh_token ≡ o
      → (refresh_by encode serve o t).0 ≡ true
      → Refreshed t (refresh_by encode serve o t).1
  refresh_by_sound none t q h = cc
  refresh_by_sound (some old) t q h = elim (Bool-cases (truthy old)) [
    | inl e ↦ rw e (refresh_with_sound old t q (rw e at h))
    | inr e ↦ absurd (ground arith)
  ]

  pub attempt-again :
      (r : Request) (t : Tab W)
      → (attempt encode serve r t).0 ≡ none
      → let t' : Tab W = record t { world = (serve (with_headers t.storage.token r) t.world).1 } in
        ((refresh_access_token encode serve t').0 ≡ true)
        × ((attempt encode serve r t).1 ≡ (refresh_access_token encode serve t').1)
  unfolding attempt
  attempt-again r t h = ground arith

  -- A call is retried only after a refresh that the server answered with a new pair of tokens; both
  -- are stored, and the retry is sent with the new access token as its bearer.
  pub attempt-retries :
      (r : Request) (t : Tab W)
      → (attempt encode serve r t).0 ≡ none
      → let t' : Tab W = record t { world = (serve (with_headers t.storage.token r) t.world).1 } in
        let u = (attempt encode serve r t).1 in
        Refreshed t' u
        × (get "authorization" (with_headers u.storage.token r).headers
            ≡ some ("Bearer " ++ text_or_nil u.storage.token))
  unfolding refresh_access_token
  attempt-retries r t h =
      let t' : Tab W = record t { world = (serve (with_headers t.storage.token r) t.world).1 } in
      let (done, e) = attempt-again r t h in
      let f = refresh_by_sound t.storage.refresh_token t' refl done in
      rw e (f, authorization-with_headers _ r (rw (f.5.0) f.4.access))

  -- The server refuses the call each time it is sent, and grants every refresh.
  abbrev pub RefusesAndRenews : Request → Type 0
  RefusesAndRenews r =
      ((token : Option String) (w : W)
        → (response : Response) × ((serve (with_headers token r) w).0 ≡ answered response)
          × (response.status ≡ 401))
      × ((token : String) (w : W)
          → (response : Response) × ((serve (refresh_request encode token) w).0 ≡ answered response)
            × Renews response)

  finish_refresh-Renews :
      (reply : Reply) (s : Storage) (r : Response)
      → reply ≡ answered r
      → Renews r
      → ((finish_refresh reply s).0 ≡ true)
        × (truthy (text_or_nil (finish_refresh reply s).1.refresh_token) ≡ true)
  unfolding finish_refresh
  finish_refresh-Renews reply s r e n = rw e (ground (arith, store_tokens-Renews r s n, n.refresh))

  refresh-done :
      (o : Option String) (t : Tab W)
      → ((token : String) (w : W)
          → (response : Response) × ((serve (refresh_request encode token) w).0 ≡ answered response)
            × Renews response)
      → truthy (text_or_nil o) ≡ true
      → ((refresh_by encode serve o t).0 ≡ true)
        × (truthy (text_or_nil (refresh_by encode serve o t).1.storage.refresh_token) ≡ true)
  unfolding refresh_with
  refresh-done none t grants h = cc
  refresh-done (some old) t grants h =
      let (r, e, n) = grants old t.world in
      rw h (finish_refresh-Renews (serve (refresh_request encode old) t.world).0 t.storage r e n)

  attempt-refused :
      (r : Request) (t : Tab W) (response : Response)
      → should_refresh r.path ≡ true
      → (serve (with_headers t.storage.token r) t.world).0 ≡ answered response
      → response.status ≡ 401
      → let t' : Tab W = record t { world = (serve (with_headers t.storage.token r) t.world).1 } in
        (refresh_access_token encode serve t').0 ≡ true
        → ((attempt encode serve r t).0 ≡ none)
          × ((attempt encode serve r t).1 ≡ (refresh_access_token encode serve t').1)
  unfolding attempt
  attempt-refused r t response h e u done = ground arith

  -- Against a server that answers the call with 401 each time it is sent, and every refresh with a new
  -- pair of tokens, a call that may refresh, made with a refresh token in storage, never ends: it is
  -- still calling itself after any number of rounds.
  pub api_request-endless :
      (r : Request)
      → RefusesAndRenews r
      → should_refresh r.path ≡ true
      → (rounds : ℕ) (t : Tab W) → truthy (text_or_nil t.storage.refresh_token) ≡ true
      → api_request encode serve rounds r t ≡ none
  unfolding api_request refresh_access_token
  api_request-endless r server h zero t k = refl
  api_request-endless r server h (suc rounds) t k =
      let t' : Tab W = record t { world = (serve (with_headers t.storage.token r) t.world).1 } in
      let (response, e, u) = server.0 t.storage.token t.world in
      let (done, left) = refresh-done t.storage.refresh_token t' server.1 k in
      let (again, next) = attempt-refused r t response h e u done in
      let later =
        api_request-endless r server h rounds (attempt encode serve r t).1 (rw next left) in
      rw (again, api_request) later
