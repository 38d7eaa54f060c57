-- ===== src/Audience/Campaigns.antt =====
-- pages/campaigns/CampaignsPage.tsx: the state of the page, its handlers and the buttons of a row,
-- with the confirmation and the toasts left out and the list's query in Listing. A request that a
-- handler sends is a value, and what follows its reply is a function of its own.
use notification_platform.Base.{
  String, Bool, true, false, not, ◌&&◌, ◌||◌, Option, none, some, List, [], ◌∷◌, ◌++◌, ◌===◌,
  if◌then◌else◌, ◌≡◌, refl, ◌↔◌, inl, inr, arith, eq_iff, Member, Member-append_left,
  Member-append_right, Member-of_append, Bool-cases, sym,
}
use mathlib.Core.Path.{subst}
use notification_platform.Widgets.Paging.{PaginationMeta}

pub record Campaign : Type 0 where
  pub id : String
  pub tenant_id : String
  pub name : String
  pub description : String
  pub status : String
  pub scheduled_at : String
  pub created_at : String

pub record CampaignsPage : Type 0 where
  pub items : List Campaign
  pub error : String
  pub loading : Bool
  pub show_form : Bool
  pub form_error : String
  pub name : String
  pub description : String
  pub saving : Bool
  pub tenant_filter : String
  pub search : String
  pub meta : Option PaginationMeta

unfoldable pub initial : CampaignsPage
initial = record {
  items = [];
  error = "";
  loading = true;
  show_form = false;
  form_error = "";
  name = "";
  description = "";
  saving = false;
  tenant_filter = "";
  search = "";
  meta = none;
}

-- `load` up to the reply, and its two ends.
unfoldable pub load : CampaignsPage → CampaignsPage
load p = record p { loading = true }

unfoldable pub loaded : List Campaign → Option PaginationMeta → CampaignsPage → CampaignsPage
loaded items meta p = record p { items = items; meta = meta; loading = false }

unfoldable pub load_failed : CampaignsPage → CampaignsPage
load_failed p = record p { loading = false }

pub data CampaignAction : Type 0 where
  approve send cancel : CampaignAction

pub data CampaignRequest : Type 0 where
  create : String → String → CampaignRequest
  change : String → CampaignAction → CampaignRequest

-- The button `Create campaign`.
unfoldable pub toggle_form : CampaignsPage → CampaignsPage
toggle_form p = record p { form_error = ""; show_form = not p.show_form }

-- `submit` up to its `await`, and its end, with the error if it threw.
unfoldable pub submit : CampaignsPage → CampaignRequest × CampaignsPage
submit p = (create p.name p.description, record p { saving = true; error = ""; form_error = "" })

unfoldable pub submitted : Option String → CampaignsPage → CampaignsPage
unfolding load
submitted none p = record (load p) {
  name = "";
  description = "";
  show_form = false;
  saving = false;
}
submitted (some message) p = record p { form_error = message; saving = false }

-- `transition`: its request, and its end, with the error if it threw.
unfoldable pub transition : String → CampaignAction → CampaignRequest
transition id action = change id action

unfoldable pub transitioned : Option String → CampaignsPage → CampaignsPage
unfolding load
transitioned none p = load p
transitioned (some message) p = p

-- What the user may do with campaigns.
pub record Rights : Type 0 where
  pub approve : Bool
  pub send : Bool
  pub cancel : Bool

abbrev button : Bool → CampaignAction → List CampaignAction
button shown action = if shown then action ∷ [] else []

abbrev approve_button : Rights → Campaign → List CampaignAction
approve_button can item = button (item.status === "draft" && can.approve) approve

abbrev send_button : Rights → Campaign → List CampaignAction
send_button can item = button (item.status === "approved" && can.send) send

abbrev cancel_button : Rights → Campaign → List CampaignAction
cancel_button can item =
    button ((item.status === "draft" || item.status === "approved") && can.cancel) cancel

-- The buttons of a row.
unfoldable pub campaign_actions : Rights → Campaign → List CampaignAction
campaign_actions can item =
    approve_button can item ++ (send_button can item ++ cancel_button can item)

-- The life of a campaign: a draft is approved, an approved campaign is sent, and either is
-- cancelled.
pub data Moves : String → CampaignAction → Type 0 where
  approved : Moves "draft" approve
  sent : Moves "approved" send
  dropped : Moves "draft" cancel
  called_off : Moves "approved" cancel

-- The user has the right of an action.
abbrev pub permitted : Rights → CampaignAction → Bool
permitted can approve = can.approve
permitted can send = can.send
permitted can cancel = can.cancel

button_iff :
    (shown : Bool) (a b : CampaignAction) → Member b (button shown a) ↔ ((shown ≡ true) × (a ≡ b))
button_iff true a b = ((λ h. elim h [ inl e ↦ (refl, e) | inr m ↦ absurd m ]), (λ h. inl h.1))
button_iff false a b = ((λ h. absurd h), (λ h. absurd (ground (arith, h.0))))

move_of :
    (item : Campaign) (s : String) (a b : CampaignAction)
    → item.status ≡ s
    → Moves s a
    → a ≡ b
    → Moves item.status b
move_of item s a b e m f = subst (Moves item.status) f (subst (λ t. Moves t a) (sym e) m)

module _ (can : Rights) (item : Campaign) where
  last_button :
      ((item.status === "draft" || item.status === "approved") && can.cancel) ≡ true
      → Member cancel (campaign_actions can item)
  unfolding campaign_actions
  last_button h =
      Member-append_right cancel (approve_button can item)
        (send_button can item ++ cancel_button can item)
        (Member-append_right cancel (send_button can item) (cancel_button can item)
          ((button_iff _ cancel cancel).1 (h, refl)))

  actions_sound :
      (a : CampaignAction)
      → Member a (campaign_actions can item)
      → Moves item.status a × (permitted can a ≡ true)
  unfolding campaign_actions
  actions_sound a h =
      let draft = eq_iff item.status "draft" in
      let ready = eq_iff item.status "approved" in
      elim (Member-of_append a (approve_button can item)
        (send_button can item ++ cancel_button can item) h) [
          | inl m ↦
              let (e, f) = (button_iff _ approve a).0 m in
              (
                move_of item "draft" approve a (ground (arith, draft, e)) approved f,
                subst (λ x. permitted can x ≡ true) f (ground (arith, e)),
              )
          | inr n ↦ elim (Member-of_append a (send_button can item) (cancel_button can item) n) [
            | inl m ↦
                let (e, f) = (button_iff _ send a).0 m in
                (
                  move_of item "approved" send a (ground (arith, ready, e)) sent f,
                  subst (λ x. permitted can x ≡ true) f (ground (arith, e)),
                )
            | inr m ↦
                let (e, f) = (button_iff _ cancel a).0 m in
                (
                  elim (Bool-cases (item.status === "draft")) [
                    | inl d ↦ move_of item "draft" cancel a (draft.0 d) dropped f
                    | inr d ↦
                        move_of item "approved" cancel a (ground (arith, ready, e, d)) called_off f
                  ],
                  subst (λ x. permitted can x ≡ true) f (ground (arith, e)),
                )
          ]
        ]

  actions_complete :
      (s : String) (a : CampaignAction)
      → s ≡ item.status
      → Moves s a
      → permitted can a ≡ true
      → Member a (campaign_actions can item)
  unfolding campaign_actions
  actions_complete s a e approved p =
      Member-append_left approve (approve_button can item)
        (send_button can item ++ cancel_button can item)
        ((button_iff _ approve approve).1 (ground (arith, eq_iff item.status "draft"), refl))
  actions_complete s a e sent p =
      Member-append_right send (approve_button can item)
        (send_button can item ++ cancel_button can item)
        (Member-append_left send (send_button can item) (cancel_button can item)
          ((button_iff _ send send).1 (ground (arith, eq_iff item.status "approved"), refl)))
  actions_complete s a e dropped p = last_button (ground (arith, eq_iff item.status "draft", p))
  actions_complete s a e called_off p =
      last_button (ground (arith, eq_iff item.status "approved", p))

-- A row has the buttons of the actions that move its campaign on and that the user has the right of.
pub campaign_actions_iff :
    (can : Rights) (item : Campaign) (a : CampaignAction)
    → Member a (campaign_actions can item) ↔ (Moves item.status a × (permitted can a ≡ true))
campaign_actions_iff can item a =
    (actions_sound can item a, λ h. actions_complete can item _ a refl h.0 h.1)
