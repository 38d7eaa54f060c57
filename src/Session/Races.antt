-- ===== src/Session/Races.antt =====
-- What becomes of waiting calls when the refresh ends, and of a logout while it is under way
-- (client.ts, AuthContext.tsx).
use notification_platform.Base.{
  String, Bool, true, false, Option, none, some, List, [], ◌∷◌, inl, inr, Bool-cases, ◌≡◌, refl,
  arith, truthy, text_or_nil, Member, Member-map, if◌then◌else◌,
}
use mathlib.Core.Path.{subst}
use notification_platform.Api.Errors.{Response}
use notification_platform.Api.Session.{
  Storage, Request, Reply, answered, settle, store_tokens, finish_refresh, no_storage,
}
use notification_platform.Api.Endless.{Renews, store_tokens-Renews, finish_refresh_sound}
use notification_platform.Session.Provider.{Provider, LoginReply, mounted, login, logout}
use notification_platform.Session.Flight.{
  Call, sent, awaiting, ended, Tab, resume, any_awaiting, force_logout, on_refresh,
}
use notification_platform.Session.Reach.{Step, refresh, log_out}

-- The call that a waiting call becomes.
abbrev pub resumed : Bool × Storage → Request → Response → Call
resumed answer r response = if answer.0 then sent r answer.1.token else ended (settle response)

resume_awaiting :
    (b : Bool) (token : Option String) (r : Request) (response : Response)
    → resume b token (awaiting r response) ≡ (if b then sent r token else ended (settle response))
unfolding resume
resume_awaiting true token r response = refl
resume_awaiting false token r response = refl

resumes :
    (answer : Reply) (t : Tab) (r : Request) (response : Response)
    → Member (awaiting r response) t.calls
    → Member
        (resumed (finish_refresh answer t.provider.storage) r response)
        (on_refresh answer t).calls
unfolding on_refresh resume
resumes answer t r response h =
    let (refreshed, storage) = finish_refresh answer t.provider.storage in
    subst (λ c. Member c (on_refresh answer t).calls)
      (resume_awaiting refreshed storage.token r response)
      (Member-map (resume refreshed storage.token) t.calls (awaiting r response) h)

waits :
    (calls : List Call) (r : Request) (response : Response)
    → Member (awaiting r response) calls
    → any_awaiting calls ≡ true
unfolding any_awaiting
waits [] r response m = absurd m
waits (c ∷ cs) r response (inl e) = rw e refl
waits (c ∷ cs) r response (inr m) = ground (arith, waits cs r response m)

-- When the refresh that a call waits for ends with new tokens, local storage holds them, and the call is
-- sent again with the new access token. When it ends without, the session is cleared, and the call ends
-- with its own 401. Either way no refresh is under way any more.
pub on_refresh-resumes :
    (answer : Reply) (t : Tab) (r : Request) (response : Response)
    → Member (awaiting r response) t.calls
    → let u = on_refresh answer t in
      (u.flight ≡ none)
      × ((tokens : Response)
          → answer ≡ answered tokens
          → Renews tokens
          → (u.provider.storage.token ≡ tokens.body.access_token)
            × (u.provider.storage.refresh_token ≡ tokens.body.refresh_token)
            × Member (sent r tokens.body.access_token) u.calls)
      × (((tokens : Response) → answer ≡ answered tokens → ¬ Renews tokens)
          → (u.provider.storage ≡ no_storage)
            × (u.provider.token ≡ none)
            × Member (ended (settle response)) u.calls)
unfolding on_refresh finish_refresh force_logout
on_refresh-resumes answer t r response m =
    let s = t.provider.storage in
    let back = resumes answer t r response m in
    (
      refl,
      (λ tokens e n.
          let (done, access, fresh) = store_tokens-Renews tokens s n in
          let done' : (finish_refresh answer s).0 ≡ true = rw e done in
          let stored : (finish_refresh answer s).1 ≡ (store_tokens tokens s).1 = rw e refl in
          (
            ground (arith, done', stored, access),
            ground (arith, done', stored, fresh),
            subst (λ c. Member c (on_refresh answer t).calls)
                (ground (arith, done', stored, access)) back,
          )),
      (λ old. elim (Bool-cases (finish_refresh answer s).0) [
        | inl e ↦ let (tokens, a, n, _) = finish_refresh_sound answer s e in absurd (old tokens a n)
        | inr e ↦ (
          ground (arith, e, waits t.calls r response m),
          ground (arith, e, waits t.calls r response m),
          subst (λ c. Member c (on_refresh answer t).calls) (ground (arith, e)) back,
        )
      ]),
    )

-- A page load after a login or a logout shows the same session.
pub mounted-login :
    (res : LoginReply) (p : Provider)
    → (mounted (login res p).storage ≡ login res p) × (mounted (logout p).storage ≡ logout p)
unfolding mounted login logout
mounted-login res p = (refl, refl)

-- A logout while a refresh is under way is undone if the server then answers with new tokens: the
-- page shows no session, local storage holds the new access token, and the next page load is
-- signed in with it.
pub logout-undone :
    (t : Tab) (token : String) (response : Response)
    → t.flight ≡ some token
    → Renews response
    → let out : Tab = record t { provider = logout t.provider } in
      let u = on_refresh (answered response) out in
      Step t out
      × Step out u
      × (u.provider.token ≡ none)
      × (u.provider.storage.token ≡ response.body.access_token)
      × (truthy (text_or_nil (mounted u.provider.storage).token) ≡ true)
unfolding on_refresh logout mounted
logout-undone t token response e n =
    let s = store_tokens-Renews response no_storage n in
    (
      log_out,
      refresh token (answered response) e,
      ground (arith, s),
      ground (arith, s),
      ground (arith, s, n.access),
    )
