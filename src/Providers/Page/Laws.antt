-- ===== src/Providers/Page/Laws.antt =====
-- When ProvidersPage.tsx saves a form, what it sends, and which rows its toggles change.
use notification_platform.Base.{
  String, Bool, true, false, not, ◌&&◌, ◌||◌, Option, none, some, List, [], ◌∷◌, ◌≡◌, refl, sym, ap,
  ◌∙◌, ◌≢◌, ◌↔◌, ◌⊎◌, inl, inr, arith, eq_iff, Dict, get, Member, Member-of_map, truthy,
  if◌then◌else◌, ◌===◌, Bool-cases, Option-cases,
}
use notification_platform.Providers.Schemas.{
  ProviderConfigField, ProviderConfigSchema, default_provider_schemas,
}
use notification_platform.Providers.Config.{
  Setting, setting_of, entered, missing_required_provider_fields,
}
use notification_platform.Providers.Config.Laws.{missing_required_complete}
use notification_platform.Providers.Page.{
  ProviderTypeItem, TenantProviderConfig, Page, create_config, save_tenant_provider, is_nil, is_new,
  config_of, request_of, id_of, toggled, enable_rows,
}

-- What `saveTenantProvider` asks of the form before it sends it.
abbrev pub IsSavable : Page → Type 0
IsSavable p =
    (p.form.channel ≢ "")
    × (p.form.provider ≢ "")
    × (p.editing ≡ none → missing_required_provider_fields p.form.provider p.config_values ≡ [])

abbrev savable : Page → Bool
savable p =
    truthy p.form.channel
    && truthy p.form.provider
    && (not (is_new p.editing)
        || is_nil (missing_required_provider_fields p.form.provider p.config_values))

abbrev pub sent_config : Page → Option (Dict Setting)
sent_config p = if is_nil (config_of p) then none else some (config_of p)

branch :
    {A : Type 0} (c q n m : Bool) (stop go : A)
    → let out = if not c || not q then stop else if n && not m then stop else go in
      (c && q && (not n || m) ≡ true → out ≡ go) × (c && q && (not n || m) ≡ false → out ≡ stop)
branch false q n m stop go = ((λ h. absurd (ground arith)), (λ h. refl))
branch true false n m stop go = ((λ h. absurd (ground arith)), (λ h. refl))
branch true true false m stop go = ((λ h. refl), (λ h. absurd (ground arith)))
branch true true true true stop go = ((λ h. refl), (λ h. absurd (ground arith)))
branch true true true false stop go = ((λ h. absurd (ground arith)), (λ h. refl))

save_savable :
    (p : Page)
    → (savable p ≡ true
        → (save_tenant_provider p).0 ≡ some (request_of p.editing p.form (sent_config p)))
      × (savable p ≡ false → save_tenant_provider p ≡ (none, p))
unfolding save_tenant_provider
save_savable p =
    let (go, stop) =
      branch (truthy p.form.channel) (truthy p.form.provider) (is_new p.editing)
        (is_nil (missing_required_provider_fields p.form.provider p.config_values)) (none, p)
        (
          some (request_of p.editing p.form (sent_config p)),
          record p { saving = id_of p.editing },
        ) in
    ((λ h. ap (λ x. x.0) (go h)), stop)

truthy_iff : (s : String) → (truthy s ≡ true) ↔ (s ≢ "")
truthy_iff String.[] = ((λ h. cc), (λ h. absurd (h refl)))
truthy_iff (String.◌∷◌ c s) = ((λ h. λ e. absurd (ground (arith, ap truthy e))), (λ h. refl))

nil_iff : {A : Type 0} (xs : List A) → (is_nil xs ≡ true) ↔ (xs ≡ [])
nil_iff [] = ((λ h. refl), (λ h. refl))
nil_iff (x ∷ xs) = ((λ h. cc), (λ h. cc))

new_iff : (o : Option TenantProviderConfig) → (is_new o ≡ true) ↔ (o ≡ none)
new_iff none = ((λ h. refl), (λ h. refl))
new_iff (some item) = ((λ h. cc), (λ h. cc))

savable_sound : (p : Page) → savable p ≡ true → IsSavable p
savable_sound p h = (
  (truthy_iff p.form.channel).0 (ground arith),
  (truthy_iff p.form.provider).0 (ground arith),
  (λ e. (nil_iff _).0 (ground (arith, (new_iff p.editing).1 e))),
)

savable_complete : (p : Page) → IsSavable p → savable p ≡ true
savable_complete p (c, q, m) = elim (Option-cases p.editing) [
  | inl e ↦ ground (
    arith,
    (truthy_iff p.form.channel).1 c,
    (truthy_iff p.form.provider).1 q,
    (nil_iff _).1 (m e),
  )
  | inr (item, e) ↦
      rw e (ground (arith, (truthy_iff p.form.channel).1 c, (truthy_iff p.form.provider).1 q))
]

-- Saving sends a request exactly when a channel and a provider are chosen and, for a new
-- configuration, no required field of the provider is left blank. The request creates or updates
-- the configuration that is edited, with the settings that were entered, if any; otherwise the page
-- stays as it is.
pub save_iff :
    (p : Page)
    → (IsSavable p
        → (save_tenant_provider p).0 ≡ some (request_of p.editing p.form (sent_config p)))
      × (¬ IsSavable p → save_tenant_provider p ≡ (none, p))
save_iff p = elim (Bool-cases (savable p)) [
  | inl e ↦ ((λ s. (save_savable p).0 e), (λ n. absurd (n (savable_sound p e))))
  | inr e ↦ ((λ s. absurd (ground (arith, savable_complete p s))), (λ n. (save_savable p).1 e))
]

get_not_nil : (k : String) (v : Setting) (c : Dict Setting) → get k c ≡ some v → is_nil c ≡ false
unfolding get
get_not_nil k v [] h = cc
get_not_nil k v (e ∷ c) h = refl

sent-IsSavable : (p : Page) → (save_tenant_provider p).0 ≢ none → IsSavable p
sent-IsSavable p sent = elim (Bool-cases (savable p)) [
  | inl e ↦ savable_sound p e
  | inr e ↦ absurd (sent (ap (λ x. x.0) ((save_savable p).1 e)))
]

-- Whenever a new configuration of a provider with a schema is sent, every required field of the schema
-- is set in it to the trimmed value that was entered, which is not empty.
pub save_complete :
    (p : Page) (schema : ProviderConfigSchema) (f : ProviderConfigField)
    → (save_tenant_provider p).0 ≢ none
    → p.editing ≡ none
    → get p.form.provider default_provider_schemas ≡ some schema
    → Member f schema.fields
    → f.required ≡ true
    → (config : Dict Setting) × ((save_tenant_provider p).0
        ≡ some (create_config p.form (some config)))
      × (get f.key config ≡ some (setting_of f.type (entered p.config_values f)))
      × (truthy (entered p.config_values f) ≡ true)
save_complete p schema f sent new h m r =
    let s = sent-IsSavable p sent in
    let (given, set) =
      missing_required_complete p.form.provider schema p.config_values p.custom_rows h (s.2 new) f m
        r in
    let full = get_not_nil f.key _ (config_of p) set in
    (config_of p, (save_iff p).0 s ∙ rw (new, full) refl, set, given)

-- After a provider type is toggled, every row of that provider shows the new value and each other
-- row is as it was; when the request failed no row has changed.
pub toggled_rows :
    (item : ProviderTypeItem) (p : Page)
    → ((toggled item false p).items ≡ p.items)
      × ((i : ProviderTypeItem)
          → Member i (toggled item true p).items
          → (j : ProviderTypeItem) × Member j p.items
            × ((j.provider ≡ item.provider) × (i ≡ record j { enabled = not item.enabled })
                ⊎ (j.provider ≢ item.provider) × (i ≡ j)))
unfolding toggled enable_rows
toggled_rows item p = (
  refl,
  (λ i m.
      let (j, k, e) = Member-of_map _ p.items i m in
      (
        j,
        k,
        elim (Bool-cases (j.provider === item.provider)) [
          | inl q ↦ inl ((eq_iff j.provider item.provider).0 q, sym e ∙ rw q refl)
          | inr q ↦ inr (
            (λ same. absurd (ground (arith, eq_iff j.provider item.provider))),
            sym e ∙ rw q refl,
          )
        ],
      )),
)
