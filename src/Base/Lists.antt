-- ===== src/Base/Lists.antt =====
-- Lists measured by native numbers, JavaScript's array methods, and predicates on lists.
use Prim.Native.Nat.{ℕ, zero, suc, ◌+◌}
use Prim.Native.String.{String}
use mathlib.Core.Path.{◌≡◌, refl, ap}
use mathlib.Core.Logic.{◌⊎◌, inl, inr, ◌↔◌}
use mathlib.Core.Bool.{Bool, true, false, ◌&&◌, ◌||◌}
use mathlib.Core.Option.{Option, none, some}
use mathlib.Core.List.{List, [], ◌∷◌, ◌++◌, map}
use native.Mathlib.Omega.{arith}
use text.Mathlib.TextEquality.{eq_iff}
use notification_platform.Base.Tests.{if◌then◌else◌, Bool-cases}
use notification_platform.Base.Texts.{◌===◌}

module _ {ℓ} {A : Type ℓ} where
  abbrev pub length : List A → ℕ
  length [] = 0
  length (x ∷ xs) = suc (length xs)

  pub length-append : (xs ys : List A) → length (xs ++ ys) ≡ length xs + length ys
  length-append [] ys = omega arith
  length-append (x ∷ xs) ys = omega (arith, length-append xs ys)

  abbrev pub drop : ℕ → List A → List A
  drop zero xs = xs
  drop (suc n) [] = []
  drop (suc n) (x ∷ xs) = drop n xs

  abbrev pub take : ℕ → List A → List A
  take zero xs = []
  take (suc n) [] = []
  take (suc n) (x ∷ xs) = x ∷ take n xs

  -- `xs.filter(p)`
  unfoldable pub filter : (A → Bool) → List A → List A
  filter p [] = []
  filter p (x ∷ xs) = if p x then x ∷ filter p xs else filter p xs

  -- `xs.find(p)`
  unfoldable pub find : (A → Bool) → List A → Option A
  find p [] = none
  find p (x ∷ xs) = if p x then some x else find p xs

module _ {A : Type 0} where
  -- Membership, as a type that computes.
  abbrev pub Member : A → List A → Type 0
  Member a [] = ⊥
  Member a (x ∷ xs) = (x ≡ a) ⊎ Member a xs

  pub Member-append_left : (a : A) (xs ys : List A) → Member a xs → Member a (xs ++ ys)
  Member-append_left a [] ys h = absurd h
  Member-append_left a (x ∷ xs) ys (inl e) = inl e
  Member-append_left a (x ∷ xs) ys (inr h) = inr (Member-append_left a xs ys h)

  pub Member-append_right : (a : A) (xs ys : List A) → Member a ys → Member a (xs ++ ys)
  Member-append_right a [] ys h = h
  Member-append_right a (x ∷ xs) ys h = inr (Member-append_right a xs ys h)

  pub Member-of_append : (a : A) (xs ys : List A) → Member a (xs ++ ys) → Member a xs ⊎ Member a ys
  Member-of_append a [] ys h = inr h
  Member-of_append a (x ∷ xs) ys (inl e) = inl (inl e)
  Member-of_append a (x ∷ xs) ys (inr h) = elim (Member-of_append a xs ys h) [
    | inl m ↦ inl (inr m)
    | inr m ↦ inr m
  ]

module _ {ℓ κ} {A : Type ℓ} (P : A → Type κ) where
  abbrev pub All : List A → Type κ
  All [] = Unit
  All (x ∷ xs) = P x × All xs

-- `xs.includes(s)`
unfoldable pub contains : List String → String → Bool
contains [] s = false
contains (x ∷ xs) s = x === s || contains xs s

pub contains-Member : (xs : List String) (s : String) → (contains xs s ≡ true) ↔ Member s xs
unfolding contains
contains-Member [] s = ((λ h. cc), (λ h. absurd h))
contains-Member (x ∷ xs) s = ground (arith, contains-Member xs s, eq_iff x s)

module _ {A : Type 0} where
  -- `xs.every(p)`
  abbrev pub every : (A → Bool) → List A → Bool
  every p [] = true
  every p (x ∷ xs) = p x && every p xs

  pub every-Member :
      (p : A → Bool) (xs : List A) (a : A) → every p xs ≡ true → Member a xs → p a ≡ true
  every-Member p [] a h m = absurd m
  every-Member p (x ∷ xs) a h (inl e) = rw (← e) (ground arith)
  every-Member p (x ∷ xs) a h (inr m) = every-Member p xs a (ground arith) m

  pub Member-filter :
      (p : A → Bool) (xs : List A) (a : A) → Member a (filter p xs) ↔ (Member a xs × (p a ≡ true))
  unfolding filter
  Member-filter p [] a = ((λ h. absurd h), (λ h. absurd h.0))
  Member-filter p (x ∷ xs) a = elim (Bool-cases (p x)) [
    | inl e ↦ rw e (
      (λ h. elim h [
        | inl q ↦ (inl q, rw (← q) e)
        | inr m ↦ let r = (Member-filter p xs a).0 m in (inr r.0, r.1)
      ]),
      (λ h. elim h.0 [ inl q ↦ inl q | inr m ↦ inr ((Member-filter p xs a).1 (m, h.1)) ]),
    )
    | inr e ↦ rw e (
      (λ h. let r = (Member-filter p xs a).0 h in (inr r.0, r.1)),
      (λ h. elim h.0 [
        | inl q ↦ absurd (ground (arith, ap p q))
        | inr m ↦ (Member-filter p xs a).1 (m, h.1)
      ]),
    )
  ]

module _ {A B : Type 0} where
  pub Member-map : (f : A → B) (xs : List A) (a : A) → Member a xs → Member (f a) (map f xs)
  Member-map f [] a h = absurd h
  Member-map f (x ∷ xs) a (inl e) = inl (ap f e)
  Member-map f (x ∷ xs) a (inr h) = inr (Member-map f xs a h)

  pub Member-of_map :
      (f : A → B) (xs : List A) (b : B) → Member b (map f xs) → (a : A) × Member a xs × (f a ≡ b)
  Member-of_map f [] b h = absurd h
  Member-of_map f (x ∷ xs) b (inl e) = (x, inl refl, e)
  Member-of_map f (x ∷ xs) b (inr h) = let r = Member-of_map f xs b h in (r.0, inr r.1, r.2)
