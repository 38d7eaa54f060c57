-- ===== src/Settings/Saving.antt =====
-- What SettingsPage.tsx saves, and for which tenant.
use notification_platform.Base.{
  String, Bool, true, false, Option, none, some, truthy, text_or_nil, blank, trim, ◌≡◌, refl, ◌∙◌,
  ap, ◌≢◌, ◌⊎◌, inl, inr, if◌then◌else◌,
}
use notification_platform.Settings.Page.{
  SettingsPage, Settings, text_or_null, select, load, loaded, load_failed, body_of, sent, submit,
}

module _ {J : Type 0} (parse : String → Option J) where
  -- The metadata are left blank or are JSON.
  abbrev pub IsJson : SettingsPage → Type 0
  IsJson p = (blank p.metadata ≡ true) ⊎ ((v : J) × (parse p.metadata ≡ some v))

  submit-body_of :
      (p : SettingsPage) (body : Settings J)
      → truthy p.selected_tenant_id ≡ true
      → body_of parse p ≡ some body
      → submit parse p ≡ (
        some (record { tenant_id = p.selected_tenant_id; body = body }),
        record p { saving = true; error = "" },
      )
  unfolding submit
  submit-body_of p body h e = rw h (ap (sent parse p) e)

  -- The body has what the form shows: each text, an empty one as null, and the metadata as they are
  -- parsed, blank ones as null.
  pub record Shows (p : SettingsPage) (body : Settings J) : Type 0 where
    pub timezone : text_or_nil body.timezone ≡ p.timezone
    pub country : text_or_nil body.country ≡ p.country
    pub default_sender : text_or_nil body.default_sender ≡ p.default_sender
    pub default_sms : text_or_nil body.default_sms ≡ p.default_sms
    pub branding_logo : text_or_nil body.branding_logo ≡ p.branding_logo
    pub metadata : body.metadata ≡ (if blank p.metadata then none else parse p.metadata)

  -- The body that the form gives with these metadata.
  abbrev body_with : SettingsPage → Option J → Settings J
  body_with p metadata = record {
    timezone = text_or_null p.timezone;
    country = text_or_null p.country;
    default_sender = text_or_null p.default_sender;
    default_sms = text_or_null p.default_sms;
    branding_logo = text_or_null p.branding_logo;
    metadata = metadata;
  }

text_or_null_nil : (o : Option String) → o ≢ some "" → text_or_null (text_or_nil o) ≡ o
text_or_null_nil none n = refl
text_or_null_nil (some String.[]) n = absurd (n refl)
text_or_null_nil (some (String.◌∷◌ c s)) n = refl

blank_nil : blank "" ≡ true
unfolding trim
blank_nil = refl

load-select :
    (b : String) (p : SettingsPage)
    → truthy b ≡ true
    → load (select b p) ≡ (some b, record p { selected_tenant_id = b; loading = true })
unfolding load select
load-select b p h = rw h refl

module _ {J : Type 0} (falsy : J → Bool) (print : J → String) (parse : String → Option J) where
  -- Settings with no empty text and no falsy metadata.
  pub record IsTidy (d : Settings J) : Type 0 where
    pub timezone : d.timezone ≢ some ""
    pub country : d.country ≢ some ""
    pub default_sender : d.default_sender ≢ some ""
    pub default_sms : d.default_sms ≢ some ""
    pub branding_logo : d.branding_logo ≢ some ""
    pub metadata : (d.metadata ≡ none) ⊎ ((v : J) × (d.metadata ≡ some v) × (falsy v ≡ false))

  metadata-loaded :
      (d : Settings J) (p : SettingsPage)
      → ((v : J) → (blank (print v) ≡ false) × (parse (print v) ≡ some v))
      → IsTidy d
      → body_of parse (loaded falsy print d p)
        ≡ some (record {
          timezone = text_or_null (text_or_nil d.timezone);
          country = text_or_null (text_or_nil d.country);
          default_sender = text_or_null (text_or_nil d.default_sender);
          default_sms = text_or_null (text_or_nil d.default_sms);
          branding_logo = text_or_null (text_or_nil d.branding_logo);
          metadata = d.metadata;
        })
  unfolding loaded body_of
  metadata-loaded d p json t = elim t.metadata [
    | inl e ↦ rw (e, blank_nil) refl
    | inr (v, e, f) ↦ rw (e, f, (json v).0, (json v).1) refl
  ]

  -- Saving the settings that were loaded sends them as they were, if they have no empty text and no
  -- falsy metadata, and JSON that is printed is not blank and is parsed as itself.
  pub submit-loaded :
      (d : Settings J) (p : SettingsPage)
      → ((v : J) → (blank (print v) ≡ false) × (parse (print v) ≡ some v))
      → IsTidy d
      → truthy p.selected_tenant_id ≡ true
      → (submit parse (loaded falsy print d p)).0
        ≡ some (record { tenant_id = p.selected_tenant_id; body = d })
  unfolding loaded
  submit-loaded d p json t h =
      ap (λ r. r.0) (submit-body_of parse (loaded falsy print d p) _ h (metadata-loaded d p json t))
      ∙ rw
          (
            text_or_null_nil d.timezone t.timezone,
            text_or_null_nil d.country t.country,
            text_or_null_nil d.default_sender t.default_sender,
            text_or_null_nil d.default_sms t.default_sms,
            text_or_null_nil d.branding_logo t.branding_logo,
          )
          refl

  -- A tenant is chosen on a form that can be saved. If loading its settings fails, saving sends the
  -- chosen tenant what the form had before. If its reply comes before that for a tenant chosen
  -- earlier, saving sends the chosen tenant the settings of the earlier one, where these have no empty
  -- text and no falsy metadata, and JSON that is printed is not blank and is parsed as itself.
  pub submit-crossed :
      (b : String) (p : SettingsPage) (body : Settings J) (d e : Settings J)
      → ((v : J) → (blank (print v) ≡ false) × (parse (print v) ≡ some v))
      → IsTidy d
      → truthy b ≡ true
      → body_of parse p ≡ some body
      → let q = (load (select b p)).1 in
        ((load (select b p)).0 ≡ some b)
        × ((submit parse (load_failed q)).0 ≡ some (record { tenant_id = b; body = body }))
        × ((submit parse (loaded falsy print d (loaded falsy print e q))).0
            ≡ some (record { tenant_id = b; body = d }))
  unfolding loaded load_failed body_of
  submit-crossed b p body d e json tidy h f =
      let q : SettingsPage = record p { selected_tenant_id = b; loading = true } in
      rw (load-select b p h) (
        refl,
        ap (λ r. r.0) (submit-body_of parse (load_failed q) body h f),
        submit-loaded d (loaded falsy print e q) json tidy h,
      )
