-- ===== src/Providers/Config/Laws.antt =====
-- The configuration that ProvidersPage.tsx builds from its form, field by field.
use notification_platform.Base.{
  String, Bool, true, false, not, ◌&&◌, ◌||◌, none, some, List, [], ◌∷◌, map, filter, ◌≡◌, refl,
  sym, ap, ◌∙◌, inl, inr, arith, eq_iff, Dict, get, set, get-set, Member, Member-of_get,
  Member-filter, Member-map, every, every-Member, truthy, if◌then◌else◌, ◌===◌, Bool-cases,
}
use notification_platform.Providers.Schemas.{
  ProviderConfigField, ProviderConfigSchema, default_provider_schemas,
}
use notification_platform.Providers.Config.{
  CustomRow, Setting, setting_of, entered, fill_fields, provider_config_from_form, is_missing,
  missing_required_provider_fields,
}

abbrev pub has_field : String → List ProviderConfigField → Bool
has_field k [] = false
has_field k (f ∷ fs) = f.key === k || has_field k fs

abbrev distinct_fields : List ProviderConfigField → Bool
distinct_fields [] = true
distinct_fields (f ∷ fs) = not (has_field f.key fs) && distinct_fields fs

-- No schema names a key twice.
schemas_distinct : every (λ e. distinct_fields e.1.fields) default_provider_schemas ≡ true
unfolding default_provider_schemas
schemas_distinct = refl

schema_distinct :
    (provider : String) (schema : ProviderConfigSchema)
    → get provider default_provider_schemas ≡ some schema
    → distinct_fields schema.fields ≡ true
schema_distinct provider schema h =
    every-Member (λ e. distinct_fields e.1.fields) default_provider_schemas (provider, schema)
      schemas_distinct (Member-of_get provider schema default_provider_schemas h)

-- One round of the loop leaves the other keys alone.
step-other :
    (b : Bool) (j k : String) (v : Setting) (out : Dict Setting)
    → (j === k) ≡ false
    → get k (if b then set j v out else out) ≡ get k out
step-other true j k v out h = get-set j k v out ∙ ground arith
step-other false j k v out h = refl

fill_fields-other :
    (fs : List ProviderConfigField) (values : Dict String) (out : Dict Setting) (k : String)
    → has_field k fs ≡ false
    → get k (fill_fields fs values out) ≡ get k out
unfolding fill_fields
fill_fields-other [] values out k h = refl
fill_fields-other (f ∷ fs) values out k h =
    fill_fields-other fs values _ k (ground arith)
    ∙ step-other (truthy (entered values f)) f.key k _ out (ground arith)

step-own :
    (b : Bool) (k : String) (v : Setting) (out : Dict Setting)
    → get k (if b then set k v out else out) ≡ (if b then some v else get k out)
step-own true k v out = get-set k k v out ∙ ground (arith, eq_iff k k)
step-own false k v out = refl

has_field_of_Member :
    (f : ProviderConfigField) (fs : List ProviderConfigField)
    → Member f fs
    → has_field f.key fs ≡ true
has_field_of_Member f [] m = absurd m
has_field_of_Member f (g ∷ fs) (inl e) = ground (arith, eq_iff g.key f.key, ap (λ x. x.key) e)
has_field_of_Member f (g ∷ fs) (inr m) = ground (arith, has_field_of_Member f fs m)

get-fill_fields :
    (fs : List ProviderConfigField) (values : Dict String) (out : Dict Setting)
    (f : ProviderConfigField)
    → distinct_fields fs ≡ true
    → Member f fs
    → get f.key (fill_fields fs values out) ≡ (
        if truthy (entered values f)
        then some (setting_of f.type (entered values f))
        else get f.key out)
unfolding fill_fields
get-fill_fields [] values out f d m = absurd m
get-fill_fields (g ∷ fs) values out f d (inl e) = rw (← e) (
    fill_fields-other fs values _ g.key (ground arith)
    ∙ step-own (truthy (entered values g)) g.key _ out)
get-fill_fields (g ∷ fs) values out f d (inr m) =
    let apart : (g.key === f.key) ≡ false =
      ground (arith, eq_iff g.key f.key, has_field_of_Member f fs m, ap (λ k. has_field k fs)) in
    get-fill_fields fs values _ f (ground arith) m
    ∙ ap (λ v. if truthy (entered values f) then some (setting_of f.type (entered values f)) else v)
        (step-other (truthy (entered values g)) g.key f.key _ out apart)

config_of_schema :
    (provider : String) (schema : ProviderConfigSchema) (values : Dict String)
    (rows : List CustomRow)
    → get provider default_provider_schemas ≡ some schema
    → provider_config_from_form provider values rows ≡ fill_fields schema.fields values []
unfolding provider_config_from_form
config_of_schema provider schema values rows h = rw (h, provider_config_from_form) refl

no_setting : (k : String) → get {V = Setting} k [] ≡ none
unfolding get
no_setting k = refl

-- For a provider with a schema, the configuration holds the trimmed value of each field of the schema
-- that has one, as a number where the field is one, nothing for a field left blank, and no other key;
-- the custom rows are ignored.
pub get-provider_config_from_form :
    (provider : String) (schema : ProviderConfigSchema) (values : Dict String)
    (rows : List CustomRow)
    → get provider default_provider_schemas ≡ some schema
    → ((f : ProviderConfigField)
        → Member f schema.fields
        → get f.key (provider_config_from_form provider values rows) ≡ (
            if truthy (entered values f)
            then some (setting_of f.type (entered values f))
            else none))
      × ((k : String)
          → has_field k schema.fields ≡ false
          → get k (provider_config_from_form provider values rows) ≡ none)
get-provider_config_from_form provider schema values rows h =
    rw (config_of_schema provider schema values rows h) (
      (λ f m.
          get-fill_fields schema.fields values [] f (schema_distinct provider schema h) m
          ∙ ap
              (λ v.
                if truthy (entered values f)
                then some (setting_of f.type (entered values f))
                else v)
              (no_setting f.key)),
      (λ k n. fill_fields-other schema.fields values [] k n ∙ no_setting k),
    )

missing_of_schema :
    (provider : String) (schema : ProviderConfigSchema) (values : Dict String)
    → get provider default_provider_schemas ≡ some schema
    → missing_required_provider_fields provider values
      ≡ map (λ f. f.label) (filter (is_missing values) schema.fields)
unfolding missing_required_provider_fields
missing_of_schema provider schema values h = rw (h, missing_required_provider_fields) refl

Member-of_nil : (l : String) (ls : List String) → Member l ls → ¬ (ls ≡ [])
Member-of_nil l [] m = absurd m
Member-of_nil l (k ∷ ls) m = λ e. cc

-- A form that misses no required field gives a configuration in which every required field of the
-- provider's schema is set to the trimmed value that was entered, which is not empty.
pub missing_required_complete :
    (provider : String) (schema : ProviderConfigSchema) (values : Dict String)
    (rows : List CustomRow)
    → get provider default_provider_schemas ≡ some schema
    → missing_required_provider_fields provider values ≡ []
    → (f : ProviderConfigField) → Member f schema.fields
    → f.required ≡ true
    → (truthy (entered values f) ≡ true)
      × (get f.key (provider_config_from_form provider values rows)
          ≡ some (setting_of f.type (entered values f)))
missing_required_complete provider schema values rows h none_missing f m r =
    elim (Bool-cases (truthy (entered values f))) [
      | inl e ↦ (e, (get-provider_config_from_form provider schema values rows h).0 f m ∙ rw e refl)
      | inr e ↦
          let missing : Member f (filter (is_missing values) schema.fields) =
            (Member-filter (is_missing values) schema.fields f).1 (m, ground arith) in
          absurd (
            Member-of_nil f.label _ (Member-map (λ g. g.label) _ f missing)
              (sym (missing_of_schema provider schema values h) ∙ none_missing))
    ]
