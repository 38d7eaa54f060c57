-- ===== src/Audience/Saving.antt =====
-- What ContactsPage.tsx saves.
use notification_platform.Base.{
  String, true, false, Option, none, some, ◌≡◌, refl, ap, ◌∙◌, ◌≢◌, ◌⊎◌, inl, inr, arith, truthy,
  blank, trim, text_or_nil, Bool-cases,
}
use notification_platform.Audience.Contacts.{
  Contact, ContactsPage, update, request_of, is_create, incomplete, payload, save, open_edit,
  text_or_undefined,
}

-- A form that may be saved.
pub record IsComplete (p : ContactsPage) : Type 0 where
  pub name : blank p.form.name ≡ false
  pub address : (blank p.form.email ≡ false) ⊎ (blank p.form.phone ≡ false)
  pub tenant : p.is_platform ≡ true → is_create p.mode ≡ true → truthy p.form.tenant_id ≡ true

of_incomplete : (p : ContactsPage) → incomplete p ≡ false → IsComplete p
unfolding incomplete
of_incomplete p h = record {
  name = ground arith;
  address = elim (Bool-cases (blank p.form.email)) [ inl e ↦ inr (ground arith) | inr e ↦ inl e ];
  tenant = λ a b. ground arith;
}

to_incomplete : (p : ContactsPage) → IsComplete p → incomplete p ≡ false
unfolding incomplete
to_incomplete p c = elim c.address [
  | inl e ↦ ground (arith, c.name, c.tenant)
  | inr e ↦ ground (arith, c.name, c.tenant)
]

-- Saving sends a request exactly when there is a name, an e-mail address or a phone number, and,
-- where a platform administrator creates a contact, a tenant. The request updates the contact that
-- is edited, or else adds one, with its texts trimmed; a form that is not complete stays open with an
-- error and nothing is sent.
pub save_iff :
    (p : ContactsPage)
    → (IsComplete p
        → save p
          ≡ (some (request_of p.mode (payload p.form)), record p { saving = true; error = "" }))
      × (¬ IsComplete p
          → ((save p).0 ≡ none)
            × ((save p).1.mode ≡ p.mode)
            × ((save p).1.form ≡ p.form)
            × (truthy (save p).1.error ≡ true))
unfolding save
save_iff p = elim (Bool-cases (incomplete p)) [
  | inl e ↦ (
    (λ c. absurd (ground (arith, to_incomplete p c))),
    (λ n. rw (e, save) (refl, refl, refl, refl)),
  )
  | inr e ↦ ((λ c. rw (e, save) refl), (λ n. absurd (n (of_incomplete p e))))
]

-- A contact as the page saves it.
pub record IsTidy (c : Contact) : Type 0 where
  pub name : (trim c.name ≡ c.name) × (c.name ≢ "")
  pub email : trim c.email ≡ c.email
  pub phone : trim c.phone ≡ c.phone
  pub address : (c.email ≢ "") ⊎ (c.phone ≢ "")
  pub external_ref :
      (c.external_ref ≢ some "") × (trim (text_or_nil c.external_ref) ≡ text_or_nil c.external_ref)

truthy_text : (s : String) → s ≢ "" → truthy s ≡ true
truthy_text String.[] n = absurd (n refl)
truthy_text (String.◌∷◌ c s) n = refl

text_or_undefined_nil : (o : Option String) → o ≢ some "" → text_or_undefined (text_or_nil o) ≡ o
text_or_undefined_nil none n = refl
text_or_undefined_nil (some String.[]) n = absurd (n refl)
text_or_undefined_nil (some (String.◌∷◌ c s)) n = refl

full : (s : String) → trim s ≡ s → s ≢ "" → blank s ≡ false
full s e n = ground (arith, ap truthy e, truthy_text s n)

opened-IsComplete : (c : Contact) (p : ContactsPage) → IsTidy c → IsComplete (open_edit c p)
unfolding open_edit
opened-IsComplete c p d = record {
  name = full c.name d.name.0 d.name.1;
  address = elim d.address [
    | inl n ↦ inl (full c.email d.email n)
    | inr n ↦ inr (full c.phone d.phone n)
  ];
  tenant = λ a b. cc;
}

-- Opening a contact that was saved by this page and saving it at once sends an update of that
-- contact with its tenant, its name, its addresses and its reference as they were.
pub save-open_edit :
    (c : Contact) (p : ContactsPage)
    → IsTidy c
    → (save (open_edit c p)).0
      ≡ some (
          update c.id (record {
            tenant_id = c.tenant_id;
            name = c.name;
            email = c.email;
            phone = c.phone;
            external_ref = c.external_ref;
          }))
unfolding open_edit payload
save-open_edit c p d =
    ap (λ r. r.0) ((save_iff (open_edit c p)).0 (opened-IsComplete c p d))
    ∙ rw
        (
          d.name.0,
          d.email,
          d.phone,
          d.external_ref.1,
          text_or_undefined_nil c.external_ref d.external_ref.0,
        )
        refl
