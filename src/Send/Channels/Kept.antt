-- ===== src/Send/Channels/Kept.antt =====
-- Which channels the form of SendNotificationPage.tsx can have selected, whatever the user does.
use mathlib.Core.Path.{subst}
use notification_platform.Base.{
  find, ◌↔◌, ℕ, String, Bool, true, false, not, ◌&&◌, Option, none, some, List, [], ◌∷◌, ◌≡◌, refl,
  sym, ◌≢◌, ◌⊎◌, inl, inr, arith, filter, contains, contains-Member, Member, Member-filter,
  Member-append_right, ◌===◌, eq_iff, if◌then◌else◌, truthy, Bool-cases, Option-cases, get,
  text_or_nil, length, ◌==◌,
}
use notification_platform.Send.Template.Laws.{Distinct, dedupe-Distinct}
use notification_platform.Send.Form.{
  ChannelOption, TemplateOption, Form, Edit, opened, mounted_form, selected_template,
  keep_available, reset_values, follow_template, add_channel, load_channels, lose_channels,
  load_templates, clear_field_error, choose_template, type_event, toggle_channel, toggle_all, edit,
  choose_tenant, choose_contact, choose_group, type_recipient, type_send_at, choose_mode,
  type_value, type_priority, change_options,
}
use notification_platform.Send.Validate.{validate_form}
use notification_platform.Send.Submit.{submit, SendReply, queued, threw, sent, is_rejection}
use notification_platform.Send.Channels.{
  Step, loads_channels, loses_channels, loads_templates, chooses, types, toggles, toggles_all,
  edits, submits, replies, Reach, here, next,
}
use notification_platform.Send.Channels.Selection.{
  Within, Distinct-filter, Distinct-concat, concat-Within, absent, followed-Kept,
  kept_channels-Within, same_length_iff,
}

-- A chosen template has given its key to an event left empty.
abbrev HasEvent : Option TemplateOption → String → Type 0
HasEvent none event = Unit
HasEvent (some t) event = (truthy event ≡ true) ⊎ (event ≡ t.template_key)

abbrev pub IsKept : Form → Type 0
IsKept f =
    Distinct f.available_channels
    × Distinct f.selected_channels
    × Within f.selected_channels f.available_channels
    × HasEvent (selected_template f) f.event

follow_none : (f : Form) → selected_template f ≡ none → follow_template f ≡ f
unfolding follow_template
follow_none f e = rw (e, follow_template) refl

abbrev followed : TemplateOption → Form → Form
followed t f = record f {
  selected_channels =
      if truthy t.channel && contains f.available_channels t.channel
      then add_channel t.channel f.selected_channels
      else f.selected_channels;
  event = if truthy f.event then f.event else t.template_key;
}

follow_some :
    (f : Form) (t : TemplateOption)
    → selected_template f ≡ some t
    → follow_template f ≡ followed t f
unfolding follow_template
follow_some f t e = rw (e, follow_template) refl

event_kept :
    (t : TemplateOption) (event : String)
    → HasEvent (some t) (if truthy event then event else t.template_key)
event_kept t event = elim (Bool-cases (truthy event)) [
  | inl e ↦ rw e (inl e)
  | inr e ↦ rw e (inr refl)
]

-- The effect on the chosen template restores all of it from the two lists alone.
follow-IsKept :
    (f : Form)
    → Distinct f.available_channels
    → Distinct f.selected_channels
    → Within f.selected_channels f.available_channels
    → IsKept (follow_template f)
unfolding selected_template
follow-IsKept f a d w = elim (Option-cases (selected_template f)) [
  | inl e ↦ rw (follow_none f e) (a, d, w, subst (λ o. HasEvent o f.event) (sym e) tt)
  | inr (t, e) ↦
      let kept =
        followed-Kept (truthy t.channel) t.channel f.selected_channels f.available_channels d w in
      rw (follow_some f t e) (
        a,
        kept.0,
        kept.1,
        subst (λ o. HasEvent o (if truthy f.event then f.event else t.template_key)) (sym e)
            (event_kept t f.event),
      )
]

clear-IsKept : (name : String) (f : Form) → IsKept f → IsKept (clear_field_error name f)
unfolding clear_field_error selected_template
clear-IsKept name f k = elim (Bool-cases (truthy (text_or_nil (get name f.field_errors)))) [
  | inl e ↦ rw (e, clear_field_error) k
  | inr e ↦ rw (e, clear_field_error) k
]

channels-IsKept :
    (options : List ChannelOption) (f : Form) → IsKept f → IsKept (load_channels options f)
unfolding load_channels keep_available
channels-IsKept options f k =
    follow-IsKept _ (dedupe-Distinct _) (Distinct-filter _ f.selected_channels k.1)
      (kept_channels-Within f.selected_channels _)

lost-IsKept : (f : Form) → IsKept f → IsKept (lose_channels f)
unfolding lose_channels keep_available
lost-IsKept f k =
    follow-IsKept _ tt (Distinct-filter _ f.selected_channels k.1)
      (kept_channels-Within f.selected_channels [])

templates-IsKept :
    (templates : List TemplateOption) (f : Form) → IsKept f → IsKept (load_templates templates f)
unfolding load_templates reset_values
templates-IsKept templates f k = follow-IsKept _ k.0 k.1 k.2

choose-IsKept : (key : String) (f : Form) → IsKept f → IsKept (choose_template key f)
unfolding choose_template reset_values
choose-IsKept key f k = clear-IsKept "template" _ (elim (Bool-cases (key === f.template_key)) [
  | inl e ↦ rw e k
  | inr e ↦ rw e (follow-IsKept _ k.0 k.1 k.2)
])

type-IsKept : (event : String) (f : Form) → IsKept f → IsKept (type_event event f)
unfolding type_event
type-IsKept event f k = clear-IsKept "event" _ (elim (Bool-cases (event === f.event)) [
  | inl e ↦ rw e k
  | inr e ↦ rw e (follow-IsKept _ k.0 k.1 k.2)
])

toggle-IsKept :
    (ch : String) (f : Form)
    → Member ch f.available_channels
    → IsKept f
    → IsKept (toggle_channel ch f)
unfolding toggle_channel selected_template
toggle-IsKept ch f m k = elim (Bool-cases (contains f.selected_channels ch)) [
  | inl e ↦ rw e (
    k.0,
    Distinct-filter _ f.selected_channels k.1,
    (λ x n. k.2 x ((Member-filter (λ c. not (c === ch)) f.selected_channels x).0 n).0),
    k.3,
  )
  | inr e ↦ rw e (
    k.0,
    Distinct-concat ch f.selected_channels k.1 (absent ch f.selected_channels e),
    concat-Within ch f.selected_channels f.available_channels k.2 m,
    k.3,
  )
]

all-IsKept : (f : Form) → IsKept f → IsKept (toggle_all f)
unfolding toggle_all selected_template
all-IsKept f k = elim (Bool-cases (length f.selected_channels == length f.available_channels)) [
  | inl e ↦ rw e (k.0, tt, (λ x n. absurd n), k.3)
  | inr e ↦ rw e (k.0, k.0, (λ x n. n), k.3)
]

edit-IsKept : (e : Edit) (f : Form) → IsKept f → IsKept (edit e f)
unfolding edit selected_template
edit-IsKept (choose_tenant v) f k = clear-IsKept "tenant" _ k
edit-IsKept (choose_contact v) f k = clear-IsKept "recipient" _ k
edit-IsKept (choose_group v) f k = clear-IsKept "recipient" _ k
edit-IsKept (type_recipient v) f k = clear-IsKept "recipient" _ k
edit-IsKept (type_send_at v) f k = k
edit-IsKept (choose_mode m) f k = clear-IsKept "recipient" _ k
edit-IsKept (type_value key v) f k = clear-IsKept _ _ k
edit-IsKept (type_priority n) f k = k
edit-IsKept (change_options o) f k = k

submit-IsKept : (f : Form) → IsKept f → IsKept (submit f).1
unfolding submit validate_form selected_template
submit-IsKept f k = elim (Bool-cases ((validate_form (record f { error = "" })).0)) [
  | inl e ↦ rw e k
  | inr e ↦ rw e k
]

sent-IsKept :
    (show : ℕ → String) (reply : SendReply) (f : Form) → IsKept f → IsKept (sent show reply f).1
unfolding sent selected_template
sent-IsKept show (queued id) f k = k
sent-IsKept show (threw err) f k = elim (Bool-cases (is_rejection err)) [
  | inl e ↦ rw e k
  | inr e ↦ rw e k
]

Step-IsKept : {f g : Form} → Step f g → IsKept f → IsKept g
Step-IsKept {f} (loads_channels options) k = channels-IsKept options f k
Step-IsKept {f} loses_channels k = lost-IsKept f k
Step-IsKept {f} (loads_templates templates) k = templates-IsKept templates f k
Step-IsKept {f} (chooses key) k = choose-IsKept key f k
Step-IsKept {f} (types event) k = type-IsKept event f k
Step-IsKept {f} (toggles ch m) k = toggle-IsKept ch f m k
Step-IsKept {f} toggles_all k = all-IsKept f k
Step-IsKept {f} (edits e) k = edit-IsKept e f k
Step-IsKept {f} submits k = submit-IsKept f k
Step-IsKept {f} (replies show reply) k = sent-IsKept show reply f k

-- Once the page has rendered, no channel is selected, the default email included; and whichever
-- channels the server then lists, still none is selected.
pub mounted_form-none :
    (is_platform : Bool) (my_tenant_id : String)
    → ((mounted_form is_platform my_tenant_id).selected_channels ≡ [])
      × ((options : List ChannelOption)
          → (load_channels options (mounted_form is_platform my_tenant_id)).selected_channels ≡ [])
unfolding mounted_form opened load_channels keep_available reset_values follow_template
    selected_template filter contains find
mounted_form-none is_platform my_tenant_id = (refl, λ options. refl)

mounted_form-IsKept :
    (is_platform : Bool) (my_tenant_id : String) → IsKept (mounted_form is_platform my_tenant_id)
unfolding mounted_form opened keep_available reset_values filter contains
mounted_form-IsKept is_platform my_tenant_id = follow-IsKept _ tt tt (λ x m. absurd m)

-- Whatever the user and the replies do, the available channels are distinct, the selected channels
-- are distinct and all available, and a chosen template goes with an event that is not empty or is
-- the template's key.
pub Reach-IsKept :
    {is_platform : Bool} {my_tenant_id : String} {f : Form}
    → Reach is_platform my_tenant_id f
    → IsKept f
Reach-IsKept {is_platform} {my_tenant_id} here = mounted_form-IsKept is_platform my_tenant_id
Reach-IsKept (next r s) = Step-IsKept s (Reach-IsKept r)

-- In every state of the form that can be reached, as many channels are selected as are available
-- exactly when every available channel is selected, so the button above them says which it does.
pub all_selected :
    {is_platform : Bool} {my_tenant_id : String} {f : Form}
    → Reach is_platform my_tenant_id f
    → (length f.selected_channels ≡ length f.available_channels)
      ↔ Within f.available_channels f.selected_channels
all_selected r = let k = Reach-IsKept r in same_length_iff _ _ k.1 k.0 k.2

Member-add : (x : String) (xs : List String) → Member x (add_channel x xs)
Member-add x xs = elim (Bool-cases (contains xs x)) [
  | inl e ↦ rw e ((contains-Member xs x).0 e)
  | inr e ↦ rw e (Member-append_right x xs (x ∷ []) (inl refl))
]

cleared_channels :
    (name : String) (f : Form) → (clear_field_error name f).selected_channels ≡ f.selected_channels
unfolding clear_field_error
cleared_channels name f = elim (Bool-cases (truthy (text_or_nil (get name f.field_errors)))) [
  | inl e ↦ rw (e, clear_field_error) refl
  | inr e ↦ rw (e, clear_field_error) refl
]

-- With a template chosen whose channel is available, typing another event selects that channel, even
-- when the user has switched it off before.
pub type_event-reselects :
    (event : String) (f : Form) (t : TemplateOption)
    → selected_template f ≡ some t
    → truthy t.channel ≡ true
    → Member t.channel f.available_channels
    → event ≢ f.event
    → Member t.channel (type_event event f).selected_channels
unfolding type_event selected_template
type_event-reselects event f t e c m n =
    let other : (event === f.event) ≡ false = ground (arith, eq_iff event f.event) in
    let shown : contains f.available_channels t.channel ≡ true =
      (contains-Member f.available_channels t.channel).1 m in
    rw (cleared_channels "event" _, other, follow_some (record f { event = event }) t e, c, shown)
      (Member-add t.channel f.selected_channels)
