-- ===== src/Widgets/Confirm.antt =====
-- notification-admin-ui/src/components/ConfirmDialog.tsx: `useConfirmDialog` as a state machine.
-- The actions that it runs are numbered by the page that asks for them.
use notification_platform.Base.{
  ℕ, String, Bool, true, false, Option, none, some, List, [], ◌∷◌, ◌≡◌, refl, ap, ◌⊎◌, inl, inr,
  arith, if◌then◌else◌, or_text, Option-cases,
}

pub data ConfirmVariant : Type 0 where
  primary danger : ConfirmVariant

pub record ConfirmIntent : Type 0 where
  pub title : String
  pub confirm_label : String
  pub variant : ConfirmVariant
  pub on_confirm : ℕ

-- `started` and `finished` are the actions begun and ended so far, in order.
pub record Dialog : Type 0 where
  pub intent : Option ConfirmIntent
  pub running : Bool
  pub started : List ℕ
  pub finished : List ℕ

unfoldable pub fresh : Dialog
fresh = record { intent = none; running = false; started = []; finished = [] }

-- `requestConfirm`
unfoldable pub request_confirm : ConfirmIntent → Dialog → Dialog
request_confirm i d = record d { intent = some i }

-- `onClose` of the modal, which Escape, the backdrop and the cross call.
unfoldable pub close : Dialog → Dialog
close d = if d.running then d else record d { intent = none }

-- The Cancel button, which is disabled while an action runs.
unfoldable pub cancel : Dialog → Dialog
cancel d = if d.running then d else record d { intent = none }

-- `confirm` up to its `await`.
unfoldable pub confirm : Dialog → Dialog
confirm d = elim d.intent [
  | none ↦ d
  | some i ↦ record d { running = true; started = i.on_confirm ∷ d.started }
]

-- The Confirm button, which is disabled while an action runs.
unfoldable pub press_confirm : Dialog → Dialog
unfolding confirm
press_confirm d = if d.running then d else confirm d

-- The rest of `confirm`, once the action has returned or thrown.
unfoldable pub action_done : ℕ → Bool → Dialog → Dialog
action_done action returned d = record d {
  intent = if returned then none else d.intent;
  running = false;
  finished = action ∷ d.finished;
}

-- The label of the confirm button.
unfoldable pub confirm_text : Dialog → ConfirmIntent → String
confirm_text d i = if d.running then "Saving..." else or_text i.confirm_label "Confirm"

pub data Step (d : Dialog) : Dialog → Type 0 where
  asks : (i : ConfirmIntent) → Step d (request_confirm i d)
  closes : Step d (close d)
  cancels : Step d (cancel d)
  presses : Step d (press_confirm d)
  ends :
      (action : ℕ) (returned : Bool)
      → d.started ≡ action ∷ d.finished
      → Step d (action_done action returned d)

pub data Reach : Dialog → Type 0 where
  here : Reach fresh
  next : {d e : Dialog} → Reach d → Step d e → Reach e

-- While an action runs it is the one begun last, all others have ended, and the dialog is open;
-- while none runs, all have ended.
abbrev pub Settled : Dialog → Type 0
Settled d =
    ((d.running ≡ false) × (d.started ≡ d.finished))
    ⊎ ((action : ℕ) × (i : ConfirmIntent) × (d.running ≡ true)
        × (d.intent ≡ some i)
        × (d.started ≡ action ∷ d.finished))

-- The buttons with no action running, and with one.
idle :
    (d : Dialog)
    → d.running ≡ false
    → (close d ≡ record d { intent = none })
      × (cancel d ≡ record d { intent = none })
      × (press_confirm d ≡ confirm d)
unfolding close cancel press_confirm
idle d r = ground arith

busy : (d : Dialog) → d.running ≡ true → (close d ≡ d) × (cancel d ≡ d) × (press_confirm d ≡ d)
unfolding close cancel press_confirm
busy d r = ground arith

confirm_cases :
    (d : Dialog)
    → (confirm d ≡ d)
      ⊎ ((i : ConfirmIntent) × (d.intent ≡ some i)
          × (confirm d ≡ record d { running = true; started = i.on_confirm ∷ d.started }))
unfolding confirm
confirm_cases d = elim (Option-cases d.intent) [
  | inl n ↦ inl (ground arith)
  | inr (i, s) ↦ inr (i, s, ground arith)
]

close-Settled : (d : Dialog) → Settled d → Settled (close d) × Settled (cancel d)
close-Settled d (inl (r, e)) = let (c, k, p) = idle d r in (rw c (inl (r, e)), rw k (inl (r, e)))
close-Settled d (inr h) = let (c, k, p) = busy d h.2 in (rw c (inr h), rw k (inr h))

press-Settled : (d : Dialog) → Settled d → Settled (press_confirm d)
press-Settled d (inl (r, e)) = rw ((idle d r).2) (elim (confirm_cases d) [
  | inl same ↦ rw same (inl (r, e))
  | inr (i, s, began) ↦ rw began (inr (i.on_confirm, i, refl, s, ap (λ l. i.on_confirm ∷ l) e))
])
press-Settled d (inr h) = rw ((busy d h.2).2) (inr h)

done-Settled :
    (action : ℕ) (returned : Bool) (d : Dialog)
    → d.started ≡ action ∷ d.finished
    → Settled (action_done action returned d)
unfolding action_done
done-Settled action returned d e = inl (refl, e)

Step-Settled : {d e : Dialog} → Step d e → Settled d → Settled e
unfolding request_confirm
Step-Settled (asks i) (inl (q, e)) = inl (q, e)
Step-Settled (asks i) (inr (a, j, q, s, e)) = inr (a, i, q, refl, e)
Step-Settled {d} closes h = (close-Settled d h).0
Step-Settled {d} cancels h = (close-Settled d h).1
Step-Settled {d} presses h = press-Settled d h
Step-Settled {d} (ends action returned q) h = done-Settled action returned d q

-- However the dialog is used, also when a page asks again while an action runs, at most one action
-- runs at a time: while one runs it is the one begun last, every action begun before has ended, and
-- the dialog is open with some intent; while none runs, every action begun has ended.
pub Reach-Settled : {d : Dialog} → Reach d → Settled d
unfolding fresh
Reach-Settled here = inl (refl, refl)
Reach-Settled (next r s) = Step-Settled s (Reach-Settled r)

-- While an action runs, closing, cancelling and confirming again change nothing; when it ends, the
-- dialog closes if it returned and shows the same intent, ready to be confirmed again, if it threw.
pub running_locks :
    (d : Dialog) (i : ConfirmIntent)
    → d.running ≡ true
    → d.intent ≡ some i
    → (close d ≡ d)
      × (cancel d ≡ d)
      × (press_confirm d ≡ d)
      × ((action_done i.on_confirm true d).intent ≡ none)
      × (press_confirm (action_done i.on_confirm false d)
          ≡ confirm (action_done i.on_confirm false d))
      × ((action_done i.on_confirm false d).intent ≡ some i)
unfolding action_done
running_locks d i e s =
    let (c, k, p) = busy d e in (c, k, p, refl, (idle (action_done i.on_confirm false d) refl).2, s)
