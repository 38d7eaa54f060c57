-- ===== src/Catalogs/Toggles.antt =====
-- What the switches and filters of the catalogs do.
use notification_platform.Base.{
  String, Bool, true, false, not, ◌&&◌, Option, some, List, [], ◌∷◌, map, ◌===◌, if◌then◌else◌, ◌≡◌,
  refl, ◌∙◌, sym, ap, ◌≢◌, ◌↔◌, inl, inr, arith, eq_iff, Bool-cases, Member, Member-map,
  Member-filter, Member-of_map, All,
}
use mathlib.Core.Path.{subst}
use notification_platform.Widgets.Paging.{PaginationMeta}
use notification_platform.Send.Template.Laws.{dedupe_iff}
use notification_platform.Catalogs.Channels.{
  ChannelCatalogItem, ChannelsPage, toggle, flip, toggled, switch_disabled,
}
use notification_platform.Catalogs.Features.{
  FeatureCatalogItem, FeaturesPage, categories, choose_category, loaded, SetFeature, toggle_feature,
  with_enabled, feature_toggled,
}
use notification_platform.Catalogs.Queues.{QueueControl, queue_actions}

flip_same :
    (c : String) (x : ChannelCatalogItem)
    → x.channel === c ≡ true
    → flip c x ≡ record x { enabled = not x.enabled }
flip_same c x e = rw e refl

flip_other : (c : String) (x : ChannelCatalogItem) → x.channel === c ≡ false → flip c x ≡ x
flip_other c x e = rw e refl

not-not : (b : Bool) → not (not b) ≡ b
not-not true = refl
not-not false = refl

flip-flip : (c : String) (x : ChannelCatalogItem) → flip c (flip c x) ≡ x
flip-flip c x = elim (Bool-cases (x.channel === c)) [
  | inl e ↦
      ap (flip c) (flip_same c x e)
      ∙ flip_same c (record x { enabled = not x.enabled }) e
      ∙ ap (λ b. record x { enabled = b }) (not-not x.enabled)
  | inr e ↦ ap (flip c) (flip_other c x e) ∙ flip_other c x e
]

map-flip_twice : (c : String) (xs : List ChannelCatalogItem) → map (flip c) (map (flip c) xs) ≡ xs
map-flip_twice c [] = refl
map-flip_twice c (x ∷ xs) = rw (flip-flip c x, map-flip_twice c xs) refl

-- A channel's switch is pressed, then another's, then the first again before its reply: the switch
-- is not disabled, both requests ask for the same new value, and after both replies the list shows
-- the old one.
pub toggled-twice :
    (a b : ChannelCatalogItem) (p : ChannelsPage)
    → a.channel ≢ b.channel
    → let q = (toggle b (toggle a p).1).1 in
      let r = (toggle a q).1 in
      (switch_disabled true a q ≡ false)
      × ((toggle a q).0 ≡ (toggle a p).0)
      × ((toggle a p).0.enabled ≡ not a.enabled)
      × ((toggled a (toggled a r)).items ≡ p.items)
unfolding toggle toggled switch_disabled
toggled-twice a b p n =
    (ground (arith, eq_iff b.channel a.channel), refl, refl, map-flip_twice a.channel p.items)

with_enabled_other :
    (sent : SetFeature) (x : FeatureCatalogItem)
    → x.identifier ≢ sent.identifier
    → with_enabled sent x ≡ x
with_enabled_other sent x n =
    let e : (x.identifier === sent.identifier) ≡ false =
      ground (arith, eq_iff x.identifier sent.identifier) in
    rw e refl

with_enabled_same :
    (sent : SetFeature) (x : FeatureCatalogItem)
    → (x.identifier === sent.identifier) ≡ true
    → with_enabled sent x ≡ record x {
      enabled = sent.enabled;
      status = some (if sent.enabled then "active" else "disabled");
    }
with_enabled_same sent x e = rw e refl

with_enabled_twice :
    (sent : SetFeature) (x : FeatureCatalogItem)
    → with_enabled sent (with_enabled sent x) ≡ with_enabled sent x
with_enabled_twice sent x = elim (Bool-cases (x.identifier === sent.identifier)) [
  | inl e ↦
      ap (with_enabled sent) (with_enabled_same sent x e)
      ∙ with_enabled_same sent
          (record x {
            enabled = sent.enabled;
            status = some (if sent.enabled then "active" else "disabled");
          })
          e
      ∙ sym (with_enabled_same sent x e)
  | inr e ↦
      ap (with_enabled sent)
        (with_enabled_other sent x (λ q. ground (arith, eq_iff x.identifier sent.identifier)))
]

map-with_enabled :
    (sent : SetFeature) (xs : List FeatureCatalogItem)
    → map (with_enabled sent) (map (with_enabled sent) xs) ≡ map (with_enabled sent) xs
map-with_enabled sent [] = refl
map-with_enabled sent (x ∷ xs) = rw (with_enabled_twice sent x, map-with_enabled sent xs) refl

module _ {A : Type 0} (P : A → Type 0) where
  All-Member : (xs : List A) (x : A) → All P xs → Member x xs → P x
  All-Member [] x h m = absurd m
  All-Member (y ∷ ys) x h (inl e) = subst P e h.0
  All-Member (y ∷ ys) x h (inr m) = All-Member ys x h.1 m

-- After a feature's switch was pressed and the reply came, every row with its identifier shows the
-- value that was sent, also when the reply of an equal request comes again, and the other rows are
-- as they were.
pub feature_toggled-sent :
    (item x : FeatureCatalogItem) (p : FeaturesPage)
    → Member x p.items
    → let sent = toggle_feature item in
      let q = feature_toggled sent p in
      (sent.enabled ≡ not item.enabled)
      × Member (with_enabled sent x) q.items
      × (x.identifier ≡ item.identifier → (with_enabled sent x).enabled ≡ not item.enabled)
      × (x.identifier ≢ item.identifier → with_enabled sent x ≡ x)
      × (feature_toggled sent q ≡ q)
unfolding toggle_feature feature_toggled
feature_toggled-sent item x p m =
    let sent = toggle_feature item in
    (
      refl,
      Member-map (with_enabled sent) p.items x m,
      (λ e. rw ((eq_iff x.identifier item.identifier).1 e) refl),
      (λ n. with_enabled_other sent x n),
      ap (λ items. record p { items = items }) (map-with_enabled sent p.items),
    )

-- With a category chosen and only rows of that category in the reply, the filter offers no other
-- category.
pub categories-choose_category :
    (c x : String) (reply : List FeatureCatalogItem) (meta : Option PaginationMeta)
    (p : FeaturesPage)
    → All (λ item. item.category ≡ c) reply
    → Member x (categories (loaded reply meta (choose_category c p)))
    → x ≡ c
unfolding categories loaded choose_category
categories-choose_category c x reply meta p h m =
    let (item, n, e) =
      Member-of_map (λ i. i.category) reply x ((dedupe_iff (map (λ i. i.category) reply) x).0 m) in
    sym e ∙ All-Member (λ i. i.category ≡ c) reply item h n

-- A row has a button for each of the three states but its own, if the user may update queues.
pub queue_actions_iff :
    (can_update : Bool) (item : QueueControl) (status : String)
    → Member status (queue_actions can_update item) ↔ (
        Member status ("active" ∷ "paused" ∷ "stopped" ∷ [])
        × (item.status ≢ status)
        × (can_update ≡ true))
unfolding queue_actions
queue_actions_iff can_update item status =
    let passes = λ (s : String). not (item.status === s) && can_update in
    let all = "active" ∷ "paused" ∷ "stopped" ∷ [] in
    (
      λ h.
          let (m, e) = (Member-filter passes all status).0 h in
          (m, (λ q. ground (arith, eq_iff item.status status)), ground arith),
      λ h.
          (Member-filter passes all status).1
            (h.0, ground (arith, eq_iff item.status status, h.1, h.2)),
    )
