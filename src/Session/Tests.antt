-- ===== src/Session/Tests.antt =====
-- One session with a refresh and a logout that cross.
use notification_platform.Base.{
  true, none, some, [], ◌∷◌, ◌≡◌, refl, inl, Member, truthy, text_or_nil,
}
use notification_platform.Auth.Tests.{operator}
use notification_platform.Api.Session.{answered, settle, no_storage, should_refresh}
use notification_platform.Api.Errors.{Response}
use notification_platform.Api.Endless.{Renews}
use notification_platform.Api.Tests.{tokens, tokens-Renews, stored, users_call, refusal}
use notification_platform.Session.Provider.{LoginReply, mounted, logout}
use notification_platform.Session.Flight.{sent, awaiting, ended, Tab, start, on_reply, on_refresh}
use notification_platform.Session.Reach.{Step, Reach, here, next, call, reply, Inv, Reach-Inv}
use notification_platform.Session.Races.{on_refresh-resumes, logout-undone}

-- A tab with one call whose 401 has started a refresh.
abbrev waiting : Tab
waiting = record {
  provider = mounted stored;
  flight = some "r1";
  calls = awaiting users_call refusal ∷ [];
  refreshes = 1;
  answers = 0;
}

waiting_reached : Reach stored waiting
unfolding start on_reply mounted should_refresh
waiting_reached =
    next (next here (call users_call)) (reply [] [] users_call (some "a1") (answered refusal) refl)

Reach-Inv_example : Inv waiting
Reach-Inv_example = Reach-Inv waiting_reached

on_refresh-resumes_example :
    let u = on_refresh (answered tokens) waiting in
    (u.flight ≡ none)
    × ((new : Response)
        → answered tokens ≡ answered new
        → Renews new
        → (u.provider.storage.token ≡ new.body.access_token)
          × (u.provider.storage.refresh_token ≡ new.body.refresh_token)
          × Member (sent users_call new.body.access_token) u.calls)
    × (((new : Response) → answered tokens ≡ answered new → ¬ Renews new)
        → (u.provider.storage ≡ no_storage)
          × (u.provider.token ≡ none)
          × Member (ended (settle refusal)) u.calls)
on_refresh-resumes_example =
    on_refresh-resumes (answered tokens) waiting users_call refusal (inl refl)

abbrev session : LoginReply
session = record { access_token = "a1"; refresh_token = "r1"; user = operator }

logout-undone_example :
    let out : Tab = record waiting { provider = logout waiting.provider } in
    let u = on_refresh (answered tokens) out in
    Step waiting out
    × Step out u
    × (u.provider.token ≡ none)
    × (u.provider.storage.token ≡ some "a2")
    × (truthy (text_or_nil (mounted u.provider.storage).token) ≡ true)
logout-undone_example = logout-undone waiting "r1" tokens refl tokens-Renews
