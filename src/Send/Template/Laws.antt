-- ===== src/Send/Template/Laws.antt =====
-- What SendNotificationPage.tsx reads out of a template and puts into it.

use notification_platform.Base.{
  ℕ, zero, suc, ◌≤◌, ◌<◌, String, true, false, some, List, [], ◌∷◌, ◌≡◌, refl, ap, ◌↔◌, inl, inr,
  arith, eq_iff, trim_start, truthy, contains, Member, Bool-cases, Option-cases, ◌===◌,
}
use notification_platform.Send.Template.{
  name_run, after_name, strip_two, placeholder, raw, hole, chars, scan, dedupe_from, dedupe,
}

chars-trim_start : (s : String) → chars (trim_start s) ≤ chars s
unfolding trim_start
chars-trim_start String.[] = omega arith
chars-trim_start (String.◌∷◌ c s) = ground (arith, chars-trim_start s)

chars-after_name : (s : String) → chars (after_name s) ≤ chars s
unfolding after_name
chars-after_name String.[] = omega arith
chars-after_name (String.◌∷◌ c s) = ground (arith, chars-after_name s)

chars-strip_two : (c : ℕ) (s rest : String) → strip_two c s ≡ some rest → chars rest < chars s
unfolding strip_two
chars-strip_two c String.[] rest h = cc
chars-strip_two c (String.◌∷◌ d String.[]) rest h = cc
chars-strip_two c (String.◌∷◌ d (String.◌∷◌ e s)) rest h = ground arith

-- The steps of a match.
pub placeholder_steps :
    (s key rest : String)
    → placeholder s ≡ some (key, rest)
    → (inner : String) × (strip_two b'{' s ≡ some inner)
      × (key ≡ name_run (trim_start inner))
      × (truthy key ≡ true)
      × (strip_two b'}' (trim_start (after_name (trim_start inner))) ≡ some rest)
unfolding placeholder
placeholder_steps s key rest h = elim (Option-cases (strip_two b'{' s)) [
  | inl e ↦ absurd (ground arith)
  | inr (inner, e) ↦ (inner, e, ground arith, ground arith, ground arith)
]

-- A match takes at least one character.
pub chars-placeholder :
    (s key rest : String) → placeholder s ≡ some (key, rest) → chars rest < chars s
chars-placeholder s key rest h =
    let (inner, e, e1, e2, e3) = placeholder_steps s key rest h in
    omega (
      arith,
      chars-strip_two b'{' s inner e,
      chars-trim_start inner,
      chars-after_name (trim_start inner),
      chars-trim_start (after_name (trim_start inner)),
      chars-strip_two b'}' (trim_start (after_name (trim_start inner))) rest e3,
    )

-- More fuel than characters makes no difference.
scan_fuel :
    (fuel more : ℕ) (s : String) → chars s ≤ fuel → chars s ≤ more → scan fuel s ≡ scan more s
unfolding scan
scan_fuel zero zero s h k = refl
scan_fuel zero (suc more) String.[] h k = refl
scan_fuel zero (suc more) (String.◌∷◌ c s) h k = absurd (omega arith)
scan_fuel (suc fuel) zero String.[] h k = refl
scan_fuel (suc fuel) zero (String.◌∷◌ c s) h k = absurd (omega arith)
scan_fuel (suc fuel) (suc more) String.[] h k = refl
scan_fuel (suc fuel) (suc more) (String.◌∷◌ c s) h k =
    elim (Option-cases (placeholder (String.◌∷◌ c s))) [
      | inl e ↦
          rw (e, scan) (ap (λ ps. raw c ∷ ps) (scan_fuel fuel more s (omega arith) (omega arith)))
      | inr ((key, rest), e) ↦
          let l = chars-placeholder (String.◌∷◌ c s) key rest e in
          rw (e, scan)
            (ap (λ ps. hole key ∷ ps)
              (scan_fuel fuel more rest (omega (arith, l)) (omega (arith, l))))
    ]

-- No text stands twice in the list.
abbrev pub Distinct : List String → Type 0
Distinct [] = Unit
Distinct (x ∷ xs) = (¬ Member x xs) × Distinct xs

contains_tail :
    (y : String) (seen : List String) (x : String)
    → contains (y ∷ seen) x ≡ false
    → contains seen x ≡ false
unfolding contains
contains_tail y seen x h = ground arith

contains_cons :
    (y : String) (seen : List String) (x : String)
    → ¬ (y ≡ x)
    → contains seen x ≡ false
    → contains (y ∷ seen) x ≡ false
unfolding contains
contains_cons y seen x p h = ground (arith, eq_iff y x)

contains_head : (y : String) (seen : List String) → contains (y ∷ seen) y ≡ true
unfolding contains
contains_head y seen = ground (arith, eq_iff y y)

dedupe_from_sound :
    (seen xs : List String) (x : String)
    → Member x (dedupe_from seen xs)
    → Member x xs × (contains seen x ≡ false)
unfolding dedupe_from
dedupe_from_sound seen [] x h = absurd h
dedupe_from_sound seen (y ∷ xs) x h = elim (Bool-cases (contains seen y)) [
  | inl e ↦ let r = dedupe_from_sound seen xs x (rw (e, dedupe_from) at h) in (inr r.0, r.1)
  | inr e ↦
      let k : Member x (y ∷ dedupe_from (y ∷ seen) xs) = rw (e, dedupe_from) at h in
      elim k [
        | inl q ↦ (inl q, rw (← q) e)
        | inr m ↦
            let r = dedupe_from_sound (y ∷ seen) xs x m in (inr r.0, contains_tail y seen x r.1)
      ]
]

dedupe_from_complete :
    (seen xs : List String) (x : String)
    → Member x xs
    → contains seen x ≡ false
    → Member x (dedupe_from seen xs)
unfolding dedupe_from
dedupe_from_complete seen [] x h n = absurd h
dedupe_from_complete seen (y ∷ xs) x (inl q) n =
    let e : contains seen y ≡ false = rw q n in rw (e, dedupe_from) (inl q)
dedupe_from_complete seen (y ∷ xs) x (inr m) n = elim (Bool-cases (contains seen y)) [
  | inl e ↦ rw (e, dedupe_from) (dedupe_from_complete seen xs x m n)
  | inr e ↦ elim (Bool-cases (y === x)) [
    | inl same ↦ rw (e, dedupe_from) (inl ((eq_iff y x).0 same))
    | inr other ↦
        let p : ¬ (y ≡ x) = λ q. absurd (ground (arith, eq_iff y x)) in
        rw (e, dedupe_from)
          (inr (dedupe_from_complete (y ∷ seen) xs x m (contains_cons y seen x p n)))
  ]
]

dedupe_from-Distinct : (seen xs : List String) → Distinct (dedupe_from seen xs)
unfolding dedupe_from
dedupe_from-Distinct seen [] = tt
dedupe_from-Distinct seen (y ∷ xs) = elim (Bool-cases (contains seen y)) [
  | inl e ↦ rw (e, dedupe_from) (dedupe_from-Distinct seen xs)
  | inr e ↦
      rw (e, dedupe_from)
        (
          (λ m.
              absurd
                (ground (arith, contains_head y seen, (dedupe_from_sound (y ∷ seen) xs y m).1))),
          dedupe_from-Distinct (y ∷ seen) xs,
        )
]

no_text_seen : (x : String) → contains [] x ≡ false
unfolding contains
no_text_seen x = refl

pub dedupe_iff : (xs : List String) (x : String) → Member x (dedupe xs) ↔ Member x xs
unfolding dedupe
dedupe_iff xs x =
    ((λ h. (dedupe_from_sound [] xs x h).0), (λ h. dedupe_from_complete [] xs x h (no_text_seen x)))

pub dedupe-Distinct : (xs : List String) → Distinct (dedupe xs)
unfolding dedupe
dedupe-Distinct xs = dedupe_from-Distinct [] xs
