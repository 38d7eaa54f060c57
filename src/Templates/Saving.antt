-- ===== src/Templates/Saving.antt =====
-- What TemplatesPage.tsx saves.
use notification_platform.Base.{
  String, true, false, none, some, ◌≡◌, refl, ap, ◌≢◌, inl, inr, arith, truthy, blank, trim,
  or_text, Bool-cases,
}
use notification_platform.Templates.Page.{
  Template, TemplatesPage, update, request_of, is_create, incomplete, payload, save_template,
  open_edit,
}

-- A form that may be saved.
pub record IsComplete (p : TemplatesPage) : Type 0 where
  pub template_key : blank p.form.template_key ≡ false
  pub channel : truthy p.form.channel ≡ true
  pub body : blank p.form.body ≡ false
  pub tenant : p.is_platform ≡ true → is_create p.modal ≡ true → truthy p.form.tenant_id ≡ true

of_incomplete : (p : TemplatesPage) → incomplete p ≡ false → IsComplete p
unfolding incomplete
of_incomplete p h = record {
  template_key = ground arith;
  channel = ground arith;
  body = ground arith;
  tenant = λ a b. ground arith;
}

to_incomplete : (p : TemplatesPage) → IsComplete p → incomplete p ≡ false
unfolding incomplete
to_incomplete p c = ground (arith, c.template_key, c.channel, c.body, c.tenant)

-- Saving sends a request exactly when the key and the body are not blank, there is a channel and a
-- platform administrator who creates a template has chosen its tenant. The request updates the
-- template that is edited, or else adds one, with the key and the subject trimmed; a form that is not
-- complete stays open with an error and nothing is sent.
pub save_template_iff :
    (p : TemplatesPage)
    → (IsComplete p
        → save_template p
          ≡ (some (request_of p.modal (payload p.form)), record p { saving = true; error = "" }))
      × (¬ IsComplete p
          → ((save_template p).0 ≡ none)
            × ((save_template p).1.modal ≡ p.modal)
            × ((save_template p).1.form ≡ p.form)
            × (truthy (save_template p).1.error ≡ true))
unfolding save_template
save_template_iff p = elim (Bool-cases (incomplete p)) [
  | inl e ↦ (
    (λ c. absurd (ground (arith, to_incomplete p c))),
    (λ n. rw (e, save_template) (refl, refl, refl, refl)),
  )
  | inr e ↦ ((λ c. rw (e, save_template) refl), (λ n. absurd (n (of_incomplete p e))))
]

-- A template as the page saves it.
pub record IsTidy (t : Template) : Type 0 where
  pub template_key : (trim t.template_key ≡ t.template_key) × (t.template_key ≢ "")
  pub channel : truthy t.channel ≡ true
  pub subject : trim t.subject ≡ t.subject
  pub body : blank t.body ≡ false

truthy_text : (s : String) → s ≢ "" → truthy s ≡ true
truthy_text String.[] n = absurd (n refl)
truthy_text (String.◌∷◌ c s) n = refl

or_channel : (s : String) → truthy s ≡ true → or_text s "email" ≡ s
or_channel String.[] h = cc
or_channel (String.◌∷◌ c s) h = refl

opened-IsComplete : (t : Template) (p : TemplatesPage) → IsTidy t → IsComplete (open_edit t p)
unfolding open_edit
opened-IsComplete t p d = record {
  template_key =
      ground (arith, ap truthy d.template_key.0, truthy_text t.template_key d.template_key.1);
  channel = rw (or_channel t.channel d.channel) d.channel;
  body = d.body;
  tenant = λ a b. cc;
}

tidy_payload :
    (t : Template) (p : TemplatesPage)
    → IsTidy t
    → payload (open_edit t p).form ≡ record {
      tenant_id = t.tenant_id;
      template_key = t.template_key;
      channel = t.channel;
      subject = t.subject;
      body = t.body;
    }
unfolding payload open_edit
tidy_payload t p d = rw (d.template_key.0, d.subject, or_channel t.channel d.channel) refl

-- Opening a template that was saved by this page and saving it at once sends an update of that
-- template with every field as it was.
pub save_template-open_edit :
    (t : Template) (p : TemplatesPage)
    → IsTidy t
    → (save_template (open_edit t p)).0
      ≡ some (
          update t.id (record {
            tenant_id = t.tenant_id;
            template_key = t.template_key;
            channel = t.channel;
            subject = t.subject;
            body = t.body;
          }))
unfolding open_edit
save_template-open_edit t p d =
    rw (← tidy_payload t p d)
      (ap (λ r. r.0) ((save_template_iff (open_edit t p)).0 (opened-IsComplete t p d)))
