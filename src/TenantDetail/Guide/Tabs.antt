-- ===== src/TenantDetail/Guide/Tabs.antt =====
-- The examples that IntegrationGuide.tsx shows in tabs and copies, over the life of the guide.
use notification_platform.Base.{
  ℕ, String, Option, none, some, List, [], ◌∷◌, ◌≡◌, refl, inl, inr, map, Dict, get, Member,
  Bool-cases, ◌===◌, eq_iff, arith, Option-cases, text_or_nil, or_text,
}
use notification_platform.Api.Errors.{Thrown}
use notification_platform.TenantDetail.Guide.{
  Guide, initial_guide, load_guide, guide_loaded, guide_failed, choose_tab, text_copied,
  copied_timer,
}
use notification_platform.TenantDetail.Guide.Examples.{build_examples}

-- What the examples take of the reply.
pub record IntegrationData : Type 0 where
  pub api_base_url : String
  pub slug : String

-- `data ? buildExamples(data) : {}`
unfoldable pub examples : Option IntegrationData → Dict String
unfolding build_examples
examples none = []
examples (some d) = build_examples d.api_base_url d.slug

-- The tabs that are drawn, the code that is shown, and the text that the button copies.
unfoldable pub tab_keys : Guide IntegrationData → List String
unfolding examples
tab_keys g = map (λ e. e.0) (examples g.reply)

unfoldable pub shown_code : Guide IntegrationData → Option String
unfolding examples
shown_code g = get g.tab (examples g.reply)

unfoldable pub copied_value : Guide IntegrationData → String
unfolding shown_code
copied_value g = or_text (text_or_nil (shown_code g)) ""

pub data Step (g : Guide IntegrationData) : Guide IntegrationData → Type 0 where
  loads : Step g (load_guide g)
  reply : (d : IntegrationData) → Step g (guide_loaded d g)
  fails : (show : ℕ → String) (err : Thrown) → Step g (guide_failed show err g)
  picks : (key : String) → Member key (tab_keys g) → Step g (choose_tab key g)
  copies : (id : String) → Step g (text_copied id g)
  timer : Step g (copied_timer g)

pub data Reach : Guide IntegrationData → Type 0 where
  opened : Reach initial_guide
  next : {g h : Guide IntegrationData} → Reach g → Step g h → Reach h

abbrev names : List String
names = "curl" ∷ "JavaScript" ∷ "Node" ∷ "PHP" ∷ "Laravel" ∷ "Python" ∷ "Go" ∷ []

tab_keys-names :
    (g : Guide IntegrationData) (key : String) → Member key (tab_keys g) → Member key names
unfolding tab_keys
tab_keys-names g key m = elim (Option-cases g.reply) [
  | inl e ↦ absurd (rw e at m)
  | inr (d, e) ↦ rw e at m
]

-- The tab that is open has a name that the examples have.
Step-names : {g h : Guide IntegrationData} → Step g h → Member g.tab names → Member h.tab names
unfolding load_guide guide_loaded guide_failed choose_tab text_copied copied_timer
Step-names loads m = m
Step-names (reply d) m = m
Step-names (fails show err) m = m
Step-names {g} (picks key t) m = tab_keys-names g key t
Step-names (copies id) m = m
Step-names timer m = m

Reach-names : {g : Guide IntegrationData} → Reach g → Member g.tab names
unfolding initial_guide
Reach-names opened = inl refl
Reach-names (next r st) = Step-names st (Reach-names r)

-- A key of a record has a value.
get_total :
    (key : String) (m : Dict String)
    → Member key (map (λ e. e.0) m)
    → (code : String) × (get key m ≡ some code)
unfolding get
get_total key [] h = absurd h
get_total key ((j, v) ∷ m) h = elim (Bool-cases (j === key)) [
  | inl e ↦ (v, rw e refl)
  | inr e ↦ elim h [
    | inl q ↦ absurd (ground (arith, (eq_iff j key).1 q))
    | inr k ↦ let (code, f) = get_total key m k in (code, rw e f)
  ]
]

get-build_examples :
    (url slug key : String)
    → Member key names
    → (code : String) × (get key (build_examples url slug) ≡ some code)
unfolding build_examples
get-build_examples url slug key m = get_total key (build_examples url slug) m

-- In every state that the guide reaches by loading, replies, failures, clicks on the tabs that it draws,
-- copying and its timer, there is code to show in the open tab once a reply has come.
pub Reach-shown_code :
    {g : Guide IntegrationData} (d : IntegrationData)
    → Reach g
    → g.reply ≡ some d
    → (code : String) × (shown_code g ≡ some code)
unfolding shown_code
Reach-shown_code {g} d r e = rw e (get-build_examples d.api_base_url d.slug g.tab (Reach-names r))
