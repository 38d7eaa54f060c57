-- ===== src/Session/Reach.antt =====
-- A tab over time: the events of client.ts and AuthContext.tsx in any order, and what they keep.
use notification_platform.Base.{
  ℕ, ◌+◌, if◌then◌else◌, String, Bool, true, false, Option, none, some, List, [], ◌∷◌, ◌++◌, map,
  ◌≡◌, refl, ◌∙◌, ap, arith,
}
use notification_platform.Auth.Permissions.{Principal}
use notification_platform.Api.Session.{Storage, Request, Reply}
use notification_platform.Session.Provider.{LoginReply, mounted, login, logout, refresh_user}
use notification_platform.Session.Flight.{
  Call, sent, Tab, start, on_reply, resume, is_awaiting, any_awaiting, on_refresh,
}

-- A tab as a page load leaves it.
abbrev pub loaded : Storage → Tab
loaded s = record { provider = mounted s; flight = none; calls = []; refreshes = 0; answers = 0 }

-- A reply may come for any call that is on its way, and for the refresh while there is one.
pub data Step (t : Tab) : Tab → Type 0 where
  call : (r : Request) → Step t (start r t)
  reply :
      (before after : List Call) (r : Request) (token : Option String) (answer : Reply)
      → t.calls ≡ before ++ sent r token ∷ after
      → Step t
          (record (on_reply r answer t).1 { calls = before ++ (on_reply r answer t).0 ∷ after })
  refresh : (token : String) (answer : Reply) → t.flight ≡ some token → Step t (on_refresh answer t)
  log_in : (res : LoginReply) → Step t (record t { provider = login res t.provider })
  log_out : Step t (record t { provider = logout t.provider })
  me : (user : Principal) → Step t (record t { provider = refresh_user user t.provider })

pub data Reach (s : Storage) : Tab → Type 0 where
  here : Reach s (loaded s)
  next : {t u : Tab} → Reach s t → Step t u → Reach s u

abbrev pub in_flight : Option String → ℕ
in_flight none = 0
in_flight (some token) = 1

pub record Inv (t : Tab) : Type 0 where
  pub attended : t.flight ≡ none → any_awaiting t.calls ≡ false
  pub single : t.refreshes ≡ t.answers + in_flight t.flight

any_awaiting-append :
    (xs ys : List Call)
    → any_awaiting (xs ++ ys) ≡ (if any_awaiting xs then true else any_awaiting ys)
unfolding any_awaiting
any_awaiting-append [] ys = refl
any_awaiting-append (c ∷ xs) ys = ground (arith, any_awaiting-append xs ys)

any_awaiting-resume :
    (refreshed : Bool) (token : Option String) (cs : List Call)
    → any_awaiting (map (resume refreshed token) cs) ≡ false
unfolding any_awaiting resume
any_awaiting-resume refreshed token [] = refl
any_awaiting-resume refreshed token (c ∷ cs) =
    ground (arith, any_awaiting-resume refreshed token cs)

-- What a reply does to the refresh, and when it leaves its call waiting.
on_reply_flight :
    (r : Request) (answer : Reply) (t : Tab)
    → t.refreshes ≡ t.answers + in_flight t.flight
    → let (c, u) = on_reply r answer t in
      (u.refreshes ≡ u.answers + in_flight u.flight)
      × (u.flight ≡ none → (is_awaiting c ≡ false) × (t.flight ≡ none))
unfolding on_reply
on_reply_flight r answer t h = ground arith

start-Inv : (r : Request) (t : Tab) → Inv t → Inv (start r t)
unfolding start any_awaiting
start-Inv r t v = record {
  attended =
      λ e. any_awaiting-append t.calls (sent r t.provider.storage.token ∷ []) ∙ rw (v.attended e);
  single = v.single;
}

reply-Inv :
    (before after : List Call) (r : Request) (token : Option String) (answer : Reply) (t : Tab)
    → t.calls ≡ before ++ sent r token ∷ after
    → Inv t
    → Inv (record (on_reply r answer t).1 { calls = before ++ (on_reply r answer t).0 ∷ after })
unfolding any_awaiting
reply-Inv before after r token answer t e v =
    let (single, quiet) = on_reply_flight r answer t v.single in
    let old = any_awaiting-append before (sent r token ∷ after) in
    let new = any_awaiting-append before ((on_reply r answer t).0 ∷ after) in
    let same = ap any_awaiting e in
    record { attended = λ h. ground (arith, quiet h, v.attended (quiet h).1); single = single }

on_refresh-Inv :
    (token : String) (answer : Reply) (t : Tab)
    → t.flight ≡ some token
    → Inv t
    → Inv (on_refresh answer t)
unfolding on_refresh
on_refresh-Inv token answer t e v = record {
  attended = λ h. any_awaiting-resume _ _ t.calls;
  single = omega (arith, v.single ∙ ap (λ f. t.answers + in_flight f) e);
}

Step-Inv : {t u : Tab} → Step t u → Inv t → Inv u
Step-Inv {t} (call r) v = start-Inv r t v
Step-Inv {t} (reply before after r token answer e) v = reply-Inv before after r token answer t e v
Step-Inv {t} (refresh token answer e) v = on_refresh-Inv token answer t e v
Step-Inv (log_in res) v = record { attended = v.attended; single = v.single }
Step-Inv log_out v = record { attended = v.attended; single = v.single }
Step-Inv (me user) v = record { attended = v.attended; single = v.single }

loaded-Inv : (s : Storage) → Inv (loaded s)
unfolding any_awaiting
loaded-Inv s = record { attended = λ e. refl; single = omega arith }

-- Whatever happens after a page load, no call waits for a refresh while none is under way, and the
-- refresh requests sent are those answered and at most one more: the calls share one refresh.
pub Reach-Inv : {s : Storage} {t : Tab} → Reach s t → Inv t
Reach-Inv {s} here = loaded-Inv s
Reach-Inv (next r st) = Step-Inv st (Reach-Inv r)
