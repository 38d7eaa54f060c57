-- ===== src/Api/Query/Laws.antt =====
-- The query that `listPage` of client.ts sends.
use Prim.Native.Char.{code}
use package.text.Mathlib.TextLemmas.{append-nil}
use notification_platform.Base.{
  ℕ, String, Option, none, some, ◌≡◌, refl, ◌∙◌, ◌≢◌, ap, arith, eq_iff, ◌===◌, if◌then◌else◌,
  truthy, text_or_nil, Bool-cases, inl, inr, Dict, [], ◌∷◌, get, get-remove, All,
}
use notification_platform.Api.Query.{
  Param, text, number, undefined, before_mark, after_mark, set_query, apply_param, apply_params,
  list_page_path,
}

pub get-set_query :
    (k j value : String) (q : Dict String)
    → get j (set_query k value q) ≡ (if k === j then some value else get j q)
unfolding get set_query
get-set_query k j value [] = refl
get-set_query k j value ((i, w) ∷ q) =
    ground (arith, eq_iff k j, eq_iff i k, eq_iff i j, get-set_query k j value q, get-remove k j q)

abbrev pub or_else {ℓ} : {A : Type ℓ} → Option A → Option A → Option A
or_else none old = old
or_else (some a) old = some a

module _ (show : ℕ → String) where
  -- The text that a parameter puts into the query, if any.
  abbrev pub param_text : Param → Option String
  param_text (text value) = if truthy value then some value else none
  param_text (number n) = some (show n)
  param_text undefined = none

  -- The text of a key after the loop: that of the last parameter of the key which has one, else the
  -- one that was there.
  abbrev pub chosen : String → Dict Param → Option String → Option String
  chosen key [] old = old
  chosen key ((k, p) ∷ params) old =
      chosen key params (if k === key then or_else (param_text p) old else old)

  get-apply_param :
      (key k : String) (p : Param) (q : Dict String)
      → get key (apply_param show k p q)
        ≡ (if k === key then or_else (param_text p) (get key q) else get key q)
  unfolding apply_param
  get-apply_param key k (text value) q = ground (arith, get-set_query k key value q)
  get-apply_param key k (number n) q = ground (arith, get-set_query k key (show n) q)
  get-apply_param key k undefined q = ground arith

  -- Each key of the query has the text of the last parameter of that key that is neither undefined
  -- nor empty; a key with no such parameter keeps the text that the path gave it, if any.
  pub get-apply_params :
      (key : String) (params : Dict Param) (q : Dict String)
      → get key (apply_params show params q) ≡ chosen key params (get key q)
  unfolding apply_params
  get-apply_params key [] q = refl
  get-apply_params key ((k, p) ∷ params) q =
      get-apply_params key params (apply_param show k p q)
      ∙ ap (chosen key params) (get-apply_param key k p q)

module _ (show : ℕ → String) (shown : (n : ℕ) → show n ≢ "") where
  param_text-ne-nil :
      (p : Param) (old : Option String) → old ≢ some "" → or_else (param_text show p) old ≢ some ""
  param_text-ne-nil (text String.[]) old h = h
  param_text-ne-nil (text (String.◌∷◌ c s)) old h = λ e. cc
  param_text-ne-nil (number n) old h = λ e. shown n (ground (arith, ap text_or_nil e))
  param_text-ne-nil undefined old h = h

  chosen-ne-nil :
      (key : String) (params : Dict Param) (old : Option String)
      → old ≢ some ""
      → chosen show key params old ≢ some ""
  chosen-ne-nil key [] old h = h
  chosen-ne-nil key ((k, p) ∷ params) old h = elim (Bool-cases (k === key)) [
    | inl e ↦ rw e (chosen-ne-nil key params _ (param_text-ne-nil p old h))
    | inr e ↦ rw e (chosen-ne-nil key params old h)
  ]

  -- No key of the query is left with the empty text.
  pub get-apply_params-ne-nil :
      (key : String) (params : Dict Param) (q : Dict String)
      → get key q ≢ some ""
      → get key (apply_params show params q) ≢ some ""
  get-apply_params-ne-nil key params q h =
      rw (get-apply_params show key params q) (chosen-ne-nil key params (get key q) h)

abbrev pub HasNoMark : String → Type 0
HasNoMark String.[] = Unit
HasNoMark (String.◌∷◌ c s) = (code c ≢ b'?') × HasNoMark s

query_base_of_HasNoMark : (path : String) → HasNoMark path → before_mark path ≡ path
unfolding before_mark
query_base_of_HasNoMark String.[] h = refl
query_base_of_HasNoMark (String.◌∷◌ c s) h = ground (arith, query_base_of_HasNoMark s h.1)

after_mark_of_HasNoMark : (path : String) → HasNoMark path → after_mark path ≡ ""
unfolding after_mark
after_mark_of_HasNoMark String.[] h = refl
after_mark_of_HasNoMark (String.◌∷◌ c s) h = ground (arith, after_mark_of_HasNoMark s h.1)

before_mark_nil : before_mark "" ≡ ""
unfolding before_mark
before_mark_nil = refl

module _ (show : ℕ → String) where
  -- The parameter is undefined or the empty text.
  abbrev pub IsVoid : Dict Param → Type 0
  IsVoid = All (λ p. param_text show p.1 ≡ none)

  apply_params-IsVoid :
      (params : Dict Param) (q : Dict String) → IsVoid params → apply_params show params q ≡ q
  unfolding apply_params apply_param
  apply_params-IsVoid [] q h = refl
  apply_params-IsVoid ((k, text v) ∷ params) q h = ground (arith, apply_params-IsVoid params q h.1)
  apply_params-IsVoid ((k, number n) ∷ params) q h = cc (h.0)
  apply_params-IsVoid ((k, undefined) ∷ params) q h = apply_params-IsVoid params q h.1

-- With parameters that are all undefined or empty, a path without `?` is sent as it is, where the
-- browser parses the empty query as no pairs and prints no pairs as nothing.
pub list_page_path-IsVoid :
    (show : ℕ → String) (parse : String → Dict String) (print : Dict String → String)
    (path : String) (params : Dict Param)
    → parse "" ≡ []
    → print [] ≡ ""
    → HasNoMark path
    → IsVoid show params
    → list_page_path show parse print path params ≡ path
unfolding list_page_path
list_page_path-IsVoid show parse print path params none_parsed none_printed h v = simp (
  query_base_of_HasNoMark path h,
  after_mark_of_HasNoMark path h,
  before_mark_nil,
  none_parsed,
  apply_params-IsVoid show params [] v,
  none_printed,
  append-nil,
)
