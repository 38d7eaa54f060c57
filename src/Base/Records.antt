-- ===== src/Base/Records.antt =====
-- A `Record<string, V>`: its own keys in insertion order. Properties that an object inherits, and
-- the order of integer-like keys, are not represented.
use Prim.Native.String.{String}
use mathlib.Core.Path.{◌≡◌, refl, ap}
use mathlib.Core.Logic.{inl, inr}
use mathlib.Core.Bool.{Bool, true, false, not, ◌&&◌, ◌||◌}
use mathlib.Core.Option.{Option, none, some}
use mathlib.Core.List.{List, [], ◌∷◌}
use native.Mathlib.Omega.{arith}
use text.Mathlib.TextEquality.{eq_iff}
use notification_platform.Base.Tests.{if◌then◌else◌}
use notification_platform.Base.Lists.{Member}
use notification_platform.Base.Texts.{◌===◌}

abbrev pub Dict {ℓ} : Type ℓ → Type ℓ
Dict V = List (String × V)

module _ {ℓ} {V : Type ℓ} where
  -- `m[k]`
  unfoldable pub get : String → Dict V → Option V
  get k [] = none
  get k ((j, v) ∷ m) = if j === k then some v else get k m

  -- `m[k] = v`
  unfoldable pub set : String → V → Dict V → Dict V
  set k v [] = (k, v) ∷ []
  set k v ((j, w) ∷ m) = if j === k then (j, v) ∷ m else (j, w) ∷ set k v m

  -- `delete m[k]`
  unfoldable pub remove : String → Dict V → Dict V
  remove k [] = []
  remove k ((j, w) ∷ m) = if j === k then remove k m else (j, w) ∷ remove k m

  pub get-set :
      (k j : String) (v : V) (m : Dict V)
      → get j (set k v m) ≡ (if k === j then some v else get j m)
  unfolding get set
  get-set k j v [] = refl
  get-set k j v ((i, w) ∷ m) = ground (arith, eq_iff k j, eq_iff i k, eq_iff i j, get-set k j v m)

  pub get-remove :
      (k j : String) (m : Dict V) → get j (remove k m) ≡ (if k === j then none else get j m)
  unfolding get remove
  get-remove k j [] = ground (arith, eq_iff k j)
  get-remove k j ((i, w) ∷ m) = ground (arith, eq_iff k j, eq_iff i k, eq_iff i j, get-remove k j m)

module _ {V : Type 0} where
  pub Member-of_get : (k : String) (v : V) (m : Dict V) → get k m ≡ some v → Member (k, v) m
  unfolding get
  Member-of_get k v [] h = cc
  Member-of_get k v ((j, w) ∷ m) h = ground (arith, eq_iff j k, Member-of_get k v m)

-- No key is listed twice.
abbrev pub has_key {ℓ} : {V : Type ℓ} → String → Dict V → Bool
has_key k [] = false
has_key k ((j, v) ∷ m) = j === k || has_key k m

abbrev pub distinct_keys {ℓ} : {V : Type ℓ} → Dict V → Bool
distinct_keys [] = true
distinct_keys ((k, v) ∷ m) = not (has_key k m) && distinct_keys m

module _ {V : Type 0} where
  has_key_of_Member : (k : String) (v : V) (m : Dict V) → Member (k, v) m → has_key k m ≡ true
  has_key_of_Member k v [] h = absurd h
  has_key_of_Member k v ((j, w) ∷ m) (inl e) = ground (arith, eq_iff j k, ap (λ p. p.0) e)
  has_key_of_Member k v ((j, w) ∷ m) (inr h) = ground (arith, has_key_of_Member k v m h)

  pub get_of_Member :
      (k : String) (v : V) (m : Dict V)
      → distinct_keys m ≡ true
      → Member (k, v) m
      → get k m ≡ some v
  unfolding get
  get_of_Member k v [] d h = absurd h
  get_of_Member k v ((j, w) ∷ m) d (inl e) =
      ground (arith, eq_iff j k, ap (λ p. p.0) e, ap (λ p. p.1) e)
  get_of_Member k v ((j, w) ∷ m) d (inr h) =
      ground (arith, eq_iff j k, has_key_of_Member k v m h, get_of_Member k v m (ground arith) h)
