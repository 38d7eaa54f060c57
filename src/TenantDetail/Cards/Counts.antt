-- ===== src/TenantDetail/Cards/Counts.antt =====
-- What the confirmed switch of a card does to the counts of the overview.
use notification_platform.Base.{
  ℕ, suc, String, Bool, true, false, not, some, List, [], ◌∷◌, ◌≡◌, ◌≢◌, refl, sym, ap, inl, inr,
  arith, map, filter, length, Member, Member-map, Bool-cases, eq_iff, eq_refl, ◌∙◌, ◌===◌,
  if◌then◌else◌,
}
use notification_platform.Send.Template.Laws.{Distinct}
use notification_platform.TenantDetail.Page.{
  Feature, Channel, Provider, Overview, DetailPage, feature_toggled, channel_toggled,
  provider_toggled, in_overview, Health, health,
}
use notification_platform.TenantDetail.Cards.{is_active}

-- The count before and after: one less if the row was on, and one more if not.
abbrev pub OneStep : Bool → ℕ → ℕ → Type 0
OneStep true before after = before ≡ suc after
OneStep false before after = after ≡ suc before

module _ {A : Type 0} (id : A → String) (on : A → Bool) (put : A → A) where
  abbrev update : String → List A → List A
  update k rows = map (λ a. if id a === k then put a else a) rows

  abbrev count : List A → ℕ
  count rows = length (filter on rows)

  -- The row that is switched, and another.
  update_same : (a : A) (rows : List A) → update (id a) (a ∷ rows) ≡ put a ∷ update (id a) rows
  update_same a rows = rw (eq_refl (id a)) refl

  update_other :
      (k : String) (a : A) (rows : List A) → id a ≢ k → update k (a ∷ rows) ≡ a ∷ update k rows
  update_other k a rows n =
      let e : id a === k ≡ false = ground (arith, eq_iff (id a) k) in rw e refl

  update_absent : (k : String) (rows : List A) → ¬ Member k (map id rows) → update k rows ≡ rows
  update_absent k [] n = refl
  update_absent k (a ∷ rows) n =
      update_other k a rows (λ e. n (inl e))
      ∙ ap (λ l. a ∷ l) (update_absent k rows (λ m. n (inr m)))

  -- With distinct ids only the row itself is switched.
  update_head :
      (a b : A) (rows : List A)
      → b ≡ a
      → ¬ Member (id b) (map id rows)
      → update (id a) (b ∷ rows) ≡ put a ∷ rows
  update_head a b rows e n =
      ap (λ x. update (id a) (x ∷ rows)) e
      ∙ update_same a rows
      ∙ ap (λ l. put a ∷ l) (update_absent (id a) rows (λ m. n (rw e m)))

  update_tail :
      (a b : A) (rows : List A)
      → Member a rows
      → ¬ Member (id b) (map id rows)
      → update (id a) (b ∷ rows) ≡ b ∷ update (id a) rows
  update_tail a b rows m n = update_other (id a) b rows (λ e. n (rw e (Member-map id rows a m)))

  count_head :
      (x y : A) (rows : List A)
      → on x ≡ true
      → on y ≡ false
      → count (x ∷ rows) ≡ suc (count (y ∷ rows))
  unfolding filter
  count_head x y rows h k = ground arith

  count_tail :
      (x : A) (xs ys : List A) → count xs ≡ suc (count ys) → count (x ∷ xs) ≡ suc (count (x ∷ ys))
  unfolding filter
  count_tail x xs ys h = ground arith

  -- One row is switched on: the count grows by one.
  pub count_on :
      (a : A) (rows : List A)
      → Distinct (map id rows)
      → Member a rows
      → on a ≡ false
      → on (put a) ≡ true
      → count (update (id a) rows) ≡ suc (count rows)
  count_on a [] d m off switched = absurd m
  count_on a (b ∷ rows) d (inl e) off switched =
      ap count (update_head a b rows e d.0) ∙ count_head (put a) b rows switched (ap on e ∙ off)
  count_on a (b ∷ rows) d (inr m) off switched =
      ap count (update_tail a b rows m d.0)
      ∙ count_tail b (update (id a) rows) rows (count_on a rows d.1 m off switched)

  -- One row is switched off: the count falls by one.
  pub count_off :
      (a : A) (rows : List A)
      → Distinct (map id rows)
      → Member a rows
      → on a ≡ true
      → on (put a) ≡ false
      → count rows ≡ suc (count (update (id a) rows))
  count_off a [] d m off switched = absurd m
  count_off a (b ∷ rows) d (inl e) off switched =
      count_head b (put a) rows (ap on e ∙ off) switched
      ∙ ap (λ l. suc (count l)) (sym (update_head a b rows e d.0))
  count_off a (b ∷ rows) d (inr m) off switched =
      count_tail b rows (update (id a) rows) (count_off a rows d.1 m off switched)
      ∙ ap (λ l. suc (count l)) (sym (update_tail a b rows m d.0))

  pub count_flip :
      (a : A) (rows : List A)
      → Distinct (map id rows)
      → Member a rows
      → on (put a) ≡ not (on a)
      → OneStep (on a) (count rows) (count (update (id a) rows))
  count_flip a rows d m flips = elim (Bool-cases (on a)) [
    | inl e ↦ rw e (count_off a rows d m e (flips ∙ ap not e))
    | inr e ↦ rw e (count_on a rows d m e (flips ∙ ap not e))
  ]

-- The page shows an overview in which one count has changed by one and two others have not.
abbrev pub CountedAs :
    Overview → DetailPage → Bool → (Health → ℕ) → (Health → ℕ) → (Health → ℕ) → Type 0
CountedAs o q on changed u v =
    (o' : Overview) × (q.overview ≡ some o')
    × OneStep on (changed (health o)) (changed (health o'))
    × (u (health o') ≡ u (health o))
    × (v (health o') ≡ v (health o))

status_active : (b : Bool) → (if b then "active" else "disabled") === "active" ≡ b
status_active true = refl
status_active false = refl

overview_in :
    (change : Overview → Overview) (o : Overview) (p : DetailPage)
    → p.overview ≡ some o
    → (in_overview change p).overview ≡ some (change o)
overview_in change o p e = ground arith

-- A row whose card has a switch.
pub data Row : Type 0 where
  feature : Feature → Row
  channel : Channel → Row
  provider : Provider → Row

-- The overview has the row, among rows of its kind with distinct ids.
abbrev pub IsListed : Overview → Row → Type 0
IsListed o (feature f) = Distinct (map (λ x. x.id) o.features) × Member f o.features
IsListed o (channel c) = Distinct (map (λ x. x.id) o.channels) × Member c o.channels
IsListed o (provider q) = Distinct (map (λ x. x.id) o.providers) × Member q o.providers

-- What the card's switch does once it is confirmed and its request has succeeded.
abbrev pub switched : Row → DetailPage → DetailPage
switched (feature f) p = feature_toggled f.id (not f.enabled) p
switched (channel c) p = channel_toggled c.id (not c.enabled) p
switched (provider q) p = provider_toggled q.id (not (is_active q)) p

-- The page shows an overview with one more or one less in the count of the row's kind, as the row was
-- off or on, and the same other counts.
abbrev pub Counted : Overview → DetailPage → Row → Type 0
Counted o q (feature f) =
    CountedAs o q f.enabled (λ h. h.enabled_features) (λ h. h.enabled_channels)
      (λ h. h.active_providers)
Counted o q (channel c) =
    CountedAs o q c.enabled (λ h. h.enabled_channels) (λ h. h.enabled_features)
      (λ h. h.active_providers)
Counted o q (provider r) =
    CountedAs o q (is_active r) (λ h. h.active_providers) (λ h. h.enabled_features)
      (λ h. h.enabled_channels)

-- A confirmed switch of a card, once its request has succeeded, changes the count of what is enabled or
-- active of its kind by one, up or down as the card asked, and no other count, if the page shows an
-- overview with that row and the ids of its kind are distinct.
pub health-switched :
    (o : Overview) (p : DetailPage) (r : Row)
    → p.overview ≡ some o
    → IsListed o r
    → Counted o (switched r p) r
unfolding feature_toggled channel_toggled provider_toggled health
health-switched o p (feature f) shown (d, m) = (
  _,
  overview_in _ o p shown,
  count_flip (λ x. x.id) (λ x. x.enabled) (λ x. record x { enabled = not f.enabled }) f o.features d
      m refl,
  refl,
  refl,
)
health-switched o p (channel c) shown (d, m) = (
  _,
  overview_in _ o p shown,
  count_flip (λ x. x.id) (λ x. x.enabled) (λ x. record x { enabled = not c.enabled }) c o.channels d
      m refl,
  refl,
  refl,
)
health-switched o p (provider q) shown (d, m) = (
  _,
  overview_in _ o p shown,
  count_flip (λ x. x.id) is_active
      (λ x. record x { status = if not (is_active q) then "active" else "disabled" }) q o.providers
      d m (status_active (not (is_active q))),
  refl,
  refl,
)
