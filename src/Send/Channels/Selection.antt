-- ===== src/Send/Channels/Selection.antt =====
-- Lists of channels without repetition, one within another.

use notification_platform.Base.{
  suc, ◌≤◌, ◌∙◌, ◌↔◌, String, Bool, false, ◌&&◌, List, [], ◌∷◌, ◌++◌, ◌≡◌, refl, sym, ◌⊎◌, inl, inr,
  arith, filter, contains, contains-Member, Member, Member-filter, ◌===◌, eq_iff, if◌then◌else◌,
  Bool-cases, length,
}
use notification_platform.Send.Template.Laws.{Distinct}
use notification_platform.Send.Form.{add_channel}

-- Every text of the first list is in the second.
abbrev pub Within : List String → List String → Type 0
Within xs ys = (x : String) → Member x xs → Member x ys

pub Distinct-filter : (p : String → Bool) (xs : List String) → Distinct xs → Distinct (filter p xs)
unfolding filter
Distinct-filter p [] d = tt
Distinct-filter p (x ∷ xs) d = elim (Bool-cases (p x)) [
  | inl e ↦ rw e ((λ m. d.0 ((Member-filter p xs x).0 m).0), Distinct-filter p xs d.1)
  | inr e ↦ rw e (Distinct-filter p xs d.1)
]

pub Member-of_concat :
    (y x : String) (xs : List String) → Member y (xs ++ x ∷ []) → Member y xs ⊎ (x ≡ y)
Member-of_concat y x [] (inl e) = inr e
Member-of_concat y x [] (inr m) = elim m [ ]
Member-of_concat y x (z ∷ xs) (inl e) = inl (inl e)
Member-of_concat y x (z ∷ xs) (inr m) = elim (Member-of_concat y x xs m) [
  | inl k ↦ inl (inr k)
  | inr e ↦ inr e
]

pub Distinct-concat :
    (x : String) (xs : List String) → Distinct xs → ¬ Member x xs → Distinct (xs ++ x ∷ [])
Distinct-concat x [] d n = ((λ m. m), tt)
Distinct-concat x (y ∷ xs) d n = (
  (λ m. elim (Member-of_concat y x xs m) [ inl k ↦ d.0 k | inr e ↦ n (inl (sym e)) ]),
  Distinct-concat x xs d.1 (λ m. n (inr m)),
)

-- Adding an available channel at the end.
pub concat-Within :
    (x : String) (xs ys : List String) → Within xs ys → Member x ys → Within (xs ++ x ∷ []) ys
concat-Within x xs ys w m y k = elim (Member-of_concat y x xs k) [
  | inl l ↦ w y l
  | inr e ↦ rw (← e) m
]

pub absent : (x : String) (xs : List String) → contains xs x ≡ false → ¬ Member x xs
absent x xs h m = ground (arith, (contains-Member xs x).1 m)

add-Distinct : (x : String) (xs : List String) → Distinct xs → Distinct (add_channel x xs)
add-Distinct x xs d = elim (Bool-cases (contains xs x)) [
  | inl e ↦ rw e d
  | inr e ↦ rw e (Distinct-concat x xs d (absent x xs e))
]

add-Within :
    (x : String) (xs ys : List String) → Within xs ys → Member x ys → Within (add_channel x xs) ys
add-Within x xs ys w m = elim (Bool-cases (contains xs x)) [
  | inl e ↦ rw e w
  | inr e ↦ rw e (concat-Within x xs ys w m)
]

pub followed-Kept :
    (b : Bool) (x : String) (xs ys : List String)
    → Distinct xs
    → Within xs ys
    → let zs = if b && contains ys x then add_channel x xs else xs in Distinct zs × Within zs ys
followed-Kept b x xs ys d w = elim (Bool-cases (b && contains ys x)) [
  | inl e ↦
      rw e (add-Distinct x xs d, add-Within x xs ys w ((contains-Member ys x).0 (ground arith)))
  | inr e ↦ rw e (d, w)
]

pub kept_channels-Within : (xs ys : List String) → Within (filter (λ c. contains ys c) xs) ys
kept_channels-Within xs ys x m =
    (contains-Member ys x).0 (((Member-filter (λ c. contains ys c) xs x).0 m).1)

-- One copy of a text taken out.
without : String → List String → List String
without x [] = []
without x (y ∷ ys) = if y === x then ys else y ∷ without x ys

length-without :
    (x : String) (ys : List String) → Member x ys → length ys ≡ suc (length (without x ys))
unfolding without
length-without x [] m = absurd m
length-without x (y ∷ ys) (inl e) = ground (arith, eq_iff y x)
length-without x (y ∷ ys) (inr m) = ground (arith, length-without x ys m)

Member-without :
    (x z : String) (ys : List String) → ¬ (x ≡ z) → Member z ys → Member z (without x ys)
unfolding without
Member-without x z [] n m = m
Member-without x z (y ∷ ys) n (inl e) = elim (Bool-cases (y === x)) [
  | inl q ↦ absurd (n (sym ((eq_iff y x).0 q) ∙ e))
  | inr q ↦ rw (q, without) (inl e)
]
Member-without x z (y ∷ ys) n (inr m) = elim (Bool-cases (y === x)) [
  | inl q ↦ rw (q, without) m
  | inr q ↦ rw (q, without) (inr (Member-without x z ys n m))
]

-- Distinct texts of a list are no more than it has, and one fewer if one is left out.
Distinct-fits : (xs ys : List String) → Distinct xs → Within xs ys → length xs ≤ length ys
Distinct-fits [] ys d w = omega arith
Distinct-fits (x ∷ xs) ys d w = omega (
  arith,
  length-without x ys (w x (inl refl)),
  Distinct-fits xs (without x ys) d.1
      (λ z m. Member-without x z ys (λ e. d.0 (rw e m)) (w z (inr m))),
)

Distinct-full :
    (xs ys : List String) → Distinct xs → Within xs ys → length xs ≡ length ys → Within ys xs
Distinct-full xs ys d w e z m = elim (Bool-cases (contains xs z)) [
  | inl h ↦ (contains-Member xs z).0 h
  | inr h ↦
      let n = absent z xs h in
      absurd (
        omega (
          arith,
          e,
          Distinct-fits (z ∷ xs) ys (n, d) (λ y k. elim k [ inl q ↦ rw (← q) m | inr l ↦ w y l ]),
        ))
]

pub same_length_iff :
    (xs ys : List String)
    → Distinct xs
    → Distinct ys
    → Within xs ys
    → (length xs ≡ length ys) ↔ Within ys xs
same_length_iff xs ys d e w = (
  (λ h. Distinct-full xs ys d w h),
  (λ v. omega (arith, Distinct-fits xs ys d w, Distinct-fits ys xs e v)),
)
