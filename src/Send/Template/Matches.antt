-- ===== src/Send/Template/Matches.antt =====
-- The cuts that the expression of SendNotificationPage.tsx makes in a text, stated on the text.
use Prim.Native.Char.{Char}
use Prim.Native.String
use mathlib.Core.Path.{subst}
use notification_platform.Base.{
  ℕ, zero, suc, ◌≤◌, String, none, List, [], ◌∷◌, ◌≡◌, refl, ap, inl, inr, arith, Option-cases, ◌↔◌,
  Member,
}
use notification_platform.Send.Template.{
  placeholder, Piece, raw, hole, chars, scan, pieces, keys_of, template_source, template_variables,
}
use notification_platform.Send.Template.Laws.{
  chars-placeholder, Distinct, dedupe_iff, dedupe-Distinct,
}
use notification_platform.Send.Template.Matching.{
  IsMatch, placeholder-IsMatch, placeholder_of_IsMatch,
}

-- A cut of a text: at each place a match, or one character where no match begins.
pub data Cut : String → List Piece → Type 0 where
  done : Cut "" []
  literal :
      {c : Char} {s : String} {ps : List Piece}
      → ((key rest : String) → ¬ IsMatch (String.◌∷◌ c s) key rest)
      → Cut s ps
      → Cut (String.◌∷◌ c s) (raw c ∷ ps)
  match :
      {s key rest : String} {ps : List Piece}
      → IsMatch s key rest
      → Cut rest ps
      → Cut s (hole key ∷ ps)

no-IsMatch : (s : String) → placeholder s ≡ none → (key rest : String) → ¬ IsMatch s key rest
no-IsMatch s e key rest m = let found = placeholder_of_IsMatch s key rest m in cc

scan-Cut : (fuel : ℕ) (s : String) → chars s ≤ fuel → Cut s (scan fuel s)
unfolding scan
scan-Cut zero String.[] h = done
scan-Cut zero (String.◌∷◌ c s) h = absurd (omega arith)
scan-Cut (suc fuel) String.[] h = done
scan-Cut (suc fuel) (String.◌∷◌ c s) h = elim (Option-cases (placeholder (String.◌∷◌ c s))) [
  | inl e ↦ rw (e, scan) (literal (no-IsMatch (String.◌∷◌ c s) e) (scan-Cut fuel s (omega arith)))
  | inr ((key, rest), e) ↦
      let l = chars-placeholder (String.◌∷◌ c s) key rest e in
      rw (e, scan)
        (match (placeholder-IsMatch (String.◌∷◌ c s) key rest e)
          (scan-Cut fuel rest (omega (arith, l))))
]

no_placeholder : (s : String) → ((key rest : String) → ¬ IsMatch s key rest) → placeholder s ≡ none
no_placeholder s n = elim (Option-cases (placeholder s)) [
  | inl e ↦ e
  | inr ((key, rest), e) ↦ absurd (n key rest (placeholder-IsMatch s key rest e))
]

-- A text has one cut.
Cut-scan : (fuel : ℕ) (s : String) (ps : List Piece) → chars s ≤ fuel → Cut s ps → scan fuel s ≡ ps
unfolding scan
Cut-scan zero s ps h done = refl
Cut-scan (suc fuel) s ps h done = refl
Cut-scan zero _ _ h (literal n c) = absurd (omega arith)
Cut-scan (suc fuel) _ _ h (literal {c} {s} {ps} n k) =
    rw (no_placeholder (String.◌∷◌ c s) n, scan)
      (ap (λ qs. raw c ∷ qs) (Cut-scan fuel s ps (omega arith) k))
Cut-scan fuel String.[] _ h (match {key = key} {rest} {ps} m k) =
    let found = placeholder_of_IsMatch "" key rest m in
    absurd (omega (arith, chars-placeholder "" key rest found))
Cut-scan zero (String.◌∷◌ c s) _ h (match m k) = absurd (omega arith)
Cut-scan (suc fuel) (String.◌∷◌ c s) _ h (match {key = key} {rest} {ps} m k) =
    let found = placeholder_of_IsMatch (String.◌∷◌ c s) key rest m in
    let less = chars-placeholder (String.◌∷◌ c s) key rest found in
    rw (found, scan) (ap (λ qs. hole key ∷ qs) (Cut-scan fuel rest ps (omega (arith, less)) k))

keys_of_iff : (ps : List Piece) (key : String) → Member key (keys_of ps) ↔ Member (hole key) ps
unfolding keys_of
keys_of_iff [] key = ((λ h. h), (λ h. h))
keys_of_iff (raw c ∷ ps) key = (
  (λ h. inr ((keys_of_iff ps key).0 h)),
  (λ h. elim h [ inl e ↦ cc | inr m ↦ (keys_of_iff ps key).1 m ]),
)
keys_of_iff (hole k ∷ ps) key = (
  (λ h. elim h [ inl e ↦ inl (ap hole e) | inr m ↦ inr ((keys_of_iff ps key).0 m) ]),
  (λ h. elim h [ inl e ↦ inl (cc e) | inr m ↦ inr ((keys_of_iff ps key).1 m) ]),
)

-- A list of pieces is that of a text exactly when it cuts the text, from left to right: at each place
-- a match of the expression, {{, white space, a name, white space, }}, is a hole of that name, and
-- where no match begins one character stands for itself.
pub pieces-Cut : (s : String) (ps : List Piece) → (pieces s ≡ ps) ↔ Cut s ps
unfolding pieces
pieces-Cut s ps = (
  (λ e. subst (Cut s) e (scan-Cut (chars s) s (omega arith))),
  (λ k. Cut-scan (chars s) s ps (omega arith) k),
)

-- The variables that the form asks for are the names of the matches in the cut of the template's
-- subject, a line feed and its body, and each is asked for once.
pub template_variables_iff :
    (subject body : String) (ps : List Piece)
    → Cut (String.◌++◌ subject (String.◌++◌ "\n" body)) ps
    → ((key : String) → Member key (template_variables subject body) ↔ Member (hole key) ps)
      × Distinct (template_variables subject body)
unfolding template_variables template_source
template_variables_iff subject body ps cut =
    let e = (pieces-Cut _ ps).1 cut in
    (
      λ key. rw e (
        (λ h. (keys_of_iff ps key).0 ((dedupe_iff (keys_of ps) key).0 h)),
        (λ h. (dedupe_iff (keys_of ps) key).1 ((keys_of_iff ps key).1 h)),
      ),
      rw e (dedupe-Distinct (keys_of ps)),
    )
