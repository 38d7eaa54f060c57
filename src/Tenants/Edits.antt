-- ===== src/Tenants/Edits.antt =====
-- What TenantsPage.tsx saves, by what it has read.
use notification_platform.Base.{
  String, Bool, true, false, not, ◌&&◌, ◌||◌, Option, none, some, List, [], ◌∷◌, ◌++◌, map, filter,
  find, contains, contains-Member, Member, Member-filter, Member-map, Member-of_map, All, truthy,
  text_or_nil, ◌===◌, if◌then◌else◌, ◌≡◌, refl, ◌∙◌, sym, ap, ◌↔◌, inl, inr, arith, eq_iff, get,
  Bool-cases,
}
use mathlib.Core.Path.{subst}
use notification_platform.Tenants.Provision.{
  CatalogChannel, ProvisionForm, empty_provision, toggled, toggle_channel, save_disabled,
  channel_grant, provider_grant, chosen_provider, payload,
}
use notification_platform.Tenants.Page.{
  Tenant, TenantsPage, update, handle_edit, OverviewFeature, OverviewChannel, Replies,
  enabled_channels, open_edit, edit_loaded, edit_failed, form_of, editing_tenant,
}

module _ {A : Type 0} (name : A → String) where
  -- No two elements have one name.
  abbrev pub Unique : List A → Type 0
  Unique [] = Unit
  Unique (x ∷ xs) = (contains (map name xs) (name x) ≡ false) × Unique xs

  contains-map : (x : A) (xs : List A) → Member x xs → contains (map name xs) (name x) ≡ true
  contains-map x xs m = (contains-Member (map name xs) (name x)).1 (Member-map name xs x m)

  named_once :
      (xs : List A) (x y : A) → Unique xs → Member x xs → Member y xs → name x ≡ name y → x ≡ y
  named_once [] x y u m n e = absurd m
  named_once (z ∷ zs) x y u (inl a) (inl b) e = sym a ∙ b
  named_once (z ∷ zs) x y u (inl a) (inr n) e =
      absurd (ground (arith, contains-map y zs n, u.0, ap name a))
  named_once (z ∷ zs) x y u (inr m) (inl b) e =
      absurd (ground (arith, contains-map x zs m, u.0, ap name b))
  named_once (z ∷ zs) x y u (inr m) (inr n) e = named_once zs x y u.1 m n e

  -- The names of the elements that pass a test have the name of `x` just if `x` passes it.
  contains-passing :
      (pass : A → Bool) (xs : List A) (x : A)
      → Unique xs
      → Member x xs
      → contains (map name (filter pass xs)) (name x) ≡ pass x
  contains-passing pass xs x u m = elim (Bool-cases (pass x)) [
    | inl e ↦ contains-map x (filter pass xs) ((Member-filter pass xs x).1 (m, e)) ∙ sym e
    | inr e ↦ elim (Bool-cases (contains (map name (filter pass xs)) (name x))) [
      | inr d ↦ d ∙ sym e
      | inl d ↦
          let (y, n, q) =
            Member-of_map name (filter pass xs) (name x)
              ((contains-Member (map name (filter pass xs)) (name x)).0 d) in
          let (k, t) = (Member-filter pass xs y).0 n in
          d ∙ sym t ∙ ap pass (named_once xs y x u k m q)
    ]
  ]

-- A tenant whose replies were read is saved under its id, with its name and its slug. A feature that the
-- server has is among those sent just if it was enabled, and a channel that the catalog lists is sent
-- with the `enabled` that the server had for it, where the server names each feature and each channel
-- once.
pub handle_edit-edit_loaded :
    (item : Tenant) (r : Replies) (p : TenantsPage) (f : OverviewFeature) (c : OverviewChannel)
    (k : CatalogChannel)
    → Unique (λ x. x.feature_key) r.features
    → Unique (λ x. x.channel) r.channels
    → Member f r.features
    → Member c r.channels
    → Member k p.channels
    → k.channel ≡ c.channel
    → let q = edit_loaded item r p in
      let body = payload q.channels q.form in
      ((handle_edit item.id q).0 ≡ update item.id body)
      × (body.name ≡ item.name)
      × (body.slug ≡ item.slug)
      × (contains body.features f.feature_key ≡ f.enabled)
      × Member (channel_grant c.channel c.enabled) body.channels
unfolding handle_edit edit_loaded form_of payload
handle_edit-edit_loaded item r p f c k u v m n l e =
    let of_channel = contains-passing (λ x. x.channel) (λ x. x.enabled) r.channels c v n in
    (
      refl,
      refl,
      refl,
      contains-passing (λ x. x.feature_key) (λ x. x.enabled) r.features f u m,
      subst (λ g. Member g (payload p.channels (form_of item r)).channels)
          (ap (λ x. channel_grant x (contains (enabled_channels r.channels) x)) e
            ∙ ap (channel_grant c.channel) of_channel)
          (Member-map
            (λ x. channel_grant x.channel (contains (enabled_channels r.channels) x.channel))
            p.channels k l),
    )

disabled_grants :
    (cs : List CatalogChannel)
    → All (λ g. g.enabled ≡ false) (map (λ c. channel_grant c.channel (contains [] c.channel)) cs)
unfolding channel_grant contains
disabled_grants [] = tt
disabled_grants (c ∷ cs) = (refl, disabled_grants cs)

-- While the replies for an edited tenant with a name and a slug are awaited, or if they fail, its form can
-- be saved unless a request is already being saved: the request has no feature and no provider, empty
-- texts for the time zone, the country and the two senders, and every channel of the catalog disabled.
pub handle_edit-open_edit :
    (item : Tenant) (message : String) (p : TenantsPage)
    → truthy item.name ≡ true
    → truthy item.slug ≡ true
    → p.saving ≡ false
    → let q = open_edit item p in
      let body = payload p.channels q.form in
      (save_disabled q.saving q.form ≡ false)
      × ((edit_failed message q).form ≡ q.form)
      × ((handle_edit item.id q).0 ≡ update item.id body)
      × (body.features ≡ [])
      × (body.providers ≡ [])
      × (body.settings.timezone ≡ "")
      × (body.settings.country ≡ "")
      × (body.settings.default_sender ≡ "")
      × (body.settings.default_sms ≡ "")
      × All (λ g. g.enabled ≡ false) body.channels
unfolding handle_edit open_edit edit_failed payload save_disabled empty_provision filter
handle_edit-open_edit item message p a b c = (
  ground (arith, a, b, c),
  refl,
  refl,
  refl,
  refl,
  refl,
  refl,
  refl,
  refl,
  disabled_grants p.channels,
)

find-named :
    (items : List Tenant) (b : Tenant)
    → Unique (λ x. x.id) items
    → Member b items
    → find (λ x. x.id === b.id) items ≡ some b
unfolding find
find-named [] b u m = absurd m
find-named (x ∷ xs) b u (inl e) = rw e (ground (arith, eq_iff b.id b.id))
find-named (x ∷ xs) b u (inr m) = ground (
  arith,
  eq_iff x.id b.id,
  contains-map (λ y. y.id) b xs m,
  ap (contains (map (λ y. y.id) xs)),
  find-named xs b u.1 m,
)

-- Two tenants are opened for editing, and the replies for the first come last: the second one's
-- modal is shown, and saving it gives it the name, the slug, the features and the channels of the
-- first.
pub edit_loaded-crossed :
    (a b : Tenant) (r s : Replies) (p : TenantsPage)
    → Unique (λ x. x.id) p.items
    → Member b p.items
    → let q = edit_loaded a r (edit_loaded b s (open_edit b (open_edit a p))) in
      (editing_tenant q ≡ some b)
      × ((handle_edit b.id q).0 ≡ update b.id (payload p.channels (form_of a r)))
      × ((payload p.channels (form_of a r)).name ≡ a.name)
unfolding handle_edit edit_loaded open_edit editing_tenant payload form_of
edit_loaded-crossed a b r s p u m = (find-named p.items b u m, refl, refl)

contains-append :
    (xs : List String) (v w : String) → contains (xs ++ v ∷ []) w ≡ (contains xs w || v === w)
unfolding contains
contains-append [] v w = ground arith
contains-append (x ∷ xs) v w = ground (arith, contains-append xs v w)

contains-without :
    (xs : List String) (v w : String)
    → contains (filter (λ x. not (x === v)) xs) w ≡ (contains xs w && not (v === w))
unfolding contains filter
contains-without [] v w = refl
contains-without (x ∷ xs) v w =
    ground (arith, eq_iff x v, eq_iff x w, eq_iff v w, contains-without xs v w)

contains-toggled :
    (v : String) (xs : List String) (w : String)
    → contains (toggled v xs) w ≡ (if w === v then not (contains xs w) else contains xs w)
unfolding toggled
contains-toggled v xs w = ground (
  arith,
  eq_iff w v,
  eq_iff v w,
  contains-append xs v w,
  contains-without xs v w,
  ap (contains xs),
)

flipped :
    (v : String) (xs : List String) (cs : List CatalogChannel)
    → map (λ c. channel_grant c.channel (contains (toggled v xs) c.channel)) cs
      ≡ map
          (λ g. channel_grant g.channel (if g.channel === v then not g.enabled else g.enabled))
          (map (λ c. channel_grant c.channel (contains xs c.channel)) cs)
unfolding channel_grant
flipped v xs [] = refl
flipped v xs (c ∷ cs) = rw (contains-toggled v xs c.channel, flipped v xs cs) refl

-- A click on a channel's box flips that channel in the request, and leaves the other channels, the
-- features, the settings and the templates.
pub toggle_channel-payload :
    (v : String) (form : ProvisionForm) (channels : List CatalogChannel)
    → let before = payload channels form in
      let after = payload channels (toggle_channel v form) in
      (after.channels
        ≡ map
            (λ g. channel_grant g.channel (if g.channel === v then not g.enabled else g.enabled))
            before.channels)
      × (after.features ≡ before.features)
      × (after.settings ≡ before.settings)
      × (after.templates ≡ before.templates)
unfolding payload toggle_channel
toggle_channel-payload v form channels = (flipped v form.channels channels, refl, refl, refl)

some_of_truthy : (o : Option String) → truthy (text_or_nil o) ≡ true → o ≡ some (text_or_nil o)
some_of_truthy none h = absurd (ground arith)
some_of_truthy (some s) h = refl

-- The request makes a provider the default of a channel just if the channel is enabled in the form
-- and the provider, which is not empty, is the one chosen for it.
pub payload-providers_iff :
    (channels : List CatalogChannel) (form : ProvisionForm) (c v : String)
    → Member
        (record { channel = c; provider = v; is_default = true })
        (payload channels form).providers
      ↔ (Member c form.channels × (get c form.providers ≡ some v) × (truthy v ≡ true))
unfolding payload
payload-providers_iff channels form c v =
    let passing = λ (x : String). truthy (chosen_provider form x) in
    (
      λ h.
          let (d, m, e) = Member-of_map (provider_grant form) (filter passing form.channels) _ h in
          let (n, t) = (Member-filter passing form.channels d).0 m in
          let same : d ≡ c = ap (λ g. g.channel) e in
          let chosen : chosen_provider form d ≡ v = ap (λ g. g.provider) e in
          (
            subst (λ x. Member x form.channels) same n,
            ap (λ x. get x form.providers) (sym same)
                ∙ some_of_truthy (get d form.providers) t
                ∙ ap some chosen,
            ap truthy (sym chosen) ∙ t,
          ),
      λ h.
          let chosen : chosen_provider form c ≡ v = ap text_or_nil h.1 in
          subst
            (λ x.
              Member (record { channel = c; provider = x; is_default = true })
                (map (provider_grant form) (filter passing form.channels)))
            chosen
            (Member-map (provider_grant form) (filter passing form.channels) c
              ((Member-filter passing form.channels c).1 (h.0, ap truthy chosen ∙ h.2))),
    )
