-- ===== src/Send/Template/Matching.antt =====
-- The matches of the expression of SendNotificationPage.tsx, stated on the text: `placeholder` finds a
-- match at the start of a text if there is one, and it finds no other.
use Prim.Native.Char.{Char, code}
use Prim.Native.String
use text.Mathlib.TextLemmas.{nil-append, cons-append}
use text.Mathlib.TextEquality.{Char-path}
use mathlib.Core.Path.{ap₂, subst}
use notification_platform.Base.{
  ℕ, String, true, false, some, ◌≡◌, refl, ◌∙◌, ap, sym, inl, inr, arith, trim_start, truthy,
  IsSpaces, is_space, Bool-cases, if◌then◌else◌,
}
use notification_platform.Send.Template.{
  is_name, name_run, after_name, strip_two, strip_name, placeholder,
}
use notification_platform.Send.Template.Laws.{placeholder_steps}

-- Every character may stand in a name.
abbrev pub IsName : String → Type 0
IsName String.[] = Unit
IsName (String.◌∷◌ c s) = (is_name (code c) ≡ true) × IsName s

-- The text is {{, white space, the key, white space, }}, and the rest; the key is a name, not empty.
abbrev pub IsMatch : String → String → String → Type 0
IsMatch s key rest =
    (w v : String) × (s
      ≡ String.◌++◌ "{{" (String.◌++◌ w (String.◌++◌ key (String.◌++◌ v (String.◌++◌ "}}" rest)))))
    × IsSpaces w
    × IsSpaces v
    × IsName key
    × (truthy key ≡ true)

lead : String → String
lead String.[] = ""
lead (String.◌∷◌ c s) = let rest = lead s in if is_space (code c) then String.◌∷◌ c rest else ""

lead-trim_start : (s : String) → (s ≡ String.◌++◌ (lead s) (trim_start s)) × IsSpaces (lead s)
unfolding lead trim_start
lead-trim_start String.[] = (refl, tt)
lead-trim_start (String.◌∷◌ c s) = elim (Bool-cases (is_space (code c))) [
  | inl e ↦
      rw e (
        rw cons-append (ap (λ t. String.◌∷◌ c t) (lead-trim_start s).0),
        (e, (lead-trim_start s).1),
      )
  | inr e ↦ rw e (rw nil-append, tt)
]

name_run-append : (s : String) → (s ≡ String.◌++◌ (name_run s) (after_name s)) × IsName (name_run s)
unfolding name_run after_name
name_run-append String.[] = (refl, tt)
name_run-append (String.◌∷◌ c s) = elim (Bool-cases (is_name (code c))) [
  | inl e ↦
      rw e (
        rw cons-append (ap (λ t. String.◌∷◌ c t) (name_run-append s).0),
        (e, (name_run-append s).1),
      )
  | inr e ↦ rw e (rw nil-append, tt)
]

strip_two-eq :
    (c : Char) (s rest : String)
    → strip_two (code c) s ≡ some rest
    → s ≡ String.◌∷◌ c (String.◌∷◌ c rest)
unfolding strip_two
strip_two-eq c String.[] rest h = cc
strip_two-eq c (String.◌∷◌ d String.[]) rest h = cc
strip_two-eq c (String.◌∷◌ d (String.◌∷◌ e s)) rest h =
    let p : code d ≡ code c = ground arith in
    let q : code e ≡ code c = ground arith in
    let r : s ≡ rest = ground arith in rw (Char-path d c p, Char-path e c q, r)

opened : (s rest : String) → strip_two b'{' s ≡ some rest → s ≡ String.◌++◌ "{{" rest
opened s rest h = strip_two-eq "{" s rest h ∙ sym (rw (cons-append, cons-append, nil-append))

closed : (s rest : String) → strip_two b'}' s ≡ some rest → s ≡ String.◌++◌ "}}" rest
closed s rest h = strip_two-eq "}" s rest h ∙ sym (rw (cons-append, cons-append, nil-append))

pub placeholder-IsMatch :
    (s key rest : String) → placeholder s ≡ some (key, rest) → IsMatch s key rest
placeholder-IsMatch s key rest h =
    let (inner, e, k, t, e3) = placeholder_steps s key rest h in
    let front = lead-trim_start inner in
    let name = name_run-append (trim_start inner) in
    let more = after_name (trim_start inner) in
    let back = lead-trim_start more in
    (
      lead inner,
      lead more,
      opened s inner e
          ∙ ap (λ u. String.◌++◌ "{{" u)
              (front.0
                ∙ ap (λ u. String.◌++◌ (lead inner) u)
                    (name.0
                      ∙ ap₂ (λ u v. String.◌++◌ u v) (sym k)
                          (back.0
                            ∙ ap (λ u. String.◌++◌ (lead more) u)
                                (closed (trim_start more) rest e3)))),
      front.1,
      back.1,
      subst IsName (sym k) name.1,
      t,
    )

name_not_space : (c : ℕ) → is_name c ≡ true → is_space c ≡ false
name_not_space c h = ground arith

trim_start-spaces : (w t : String) → IsSpaces w → trim_start (String.◌++◌ w t) ≡ trim_start t
unfolding trim_start
trim_start-spaces String.[] t h = rw nil-append refl
trim_start-spaces (String.◌∷◌ c w) t h =
    rw (cons-append, trim_start, h.0) (trim_start-spaces w t h.1)

trim_start-name :
    (key t : String)
    → IsName key
    → truthy key ≡ true
    → trim_start (String.◌++◌ key t) ≡ String.◌++◌ key t
unfolding trim_start
trim_start-name String.[] t n h = cc
trim_start-name (String.◌∷◌ c key) t n h =
    rw (cons-append, trim_start, name_not_space (code c) n.0) refl

-- The text begins with a character that may not stand in a name.
abbrev StopsName : String → Type 0
StopsName String.[] = ⊥
StopsName (String.◌∷◌ c s) = is_name (code c) ≡ false

name_run-name :
    (key t : String)
    → IsName key
    → StopsName t
    → (name_run (String.◌++◌ key t) ≡ key) × (after_name (String.◌++◌ key t) ≡ t)
unfolding name_run after_name
name_run-name String.[] String.[] n h = absurd h
name_run-name String.[] (String.◌∷◌ c t) n h = rw (nil-append, name_run, after_name, h) (refl, refl)
name_run-name (String.◌∷◌ c key) t n h =
    let (run, after) = name_run-name key t n.1 h in
    rw (cons-append, name_run, after_name, n.0) (ap (λ s. String.◌∷◌ c s) run, after)

stops : (v rest : String) → IsSpaces v → StopsName (String.◌++◌ v (String.◌++◌ "}}" rest))
stops String.[] rest h = rw (nil-append, cons-append) refl
stops (String.◌∷◌ c v) rest h = rw cons-append (ground (arith, h.0))

strip_two-opened : (rest : String) → strip_two b'{' (String.◌++◌ "{{" rest) ≡ some rest
unfolding strip_two
strip_two-opened rest = rw (cons-append, cons-append, nil-append) refl

strip_two-closed : (rest : String) → strip_two b'}' (trim_start (String.◌++◌ "}}" rest)) ≡ some rest
unfolding strip_two trim_start
strip_two-closed rest = rw (cons-append, cons-append, nil-append) refl

placeholder_of_steps :
    (s inner key more rest : String)
    → strip_two b'{' s ≡ some inner
    → name_run (trim_start inner) ≡ key
    → after_name (trim_start inner) ≡ more
    → truthy key ≡ true
    → strip_two b'}' (trim_start more) ≡ some rest
    → placeholder s ≡ some (key, rest)
unfolding placeholder strip_name
placeholder_of_steps s inner key more rest a b c d e = rw (a, b, d, c, e) refl

-- A match at the start of a text is found.
pub placeholder_of_IsMatch :
    (s key rest : String) → IsMatch s key rest → placeholder s ≡ some (key, rest)
placeholder_of_IsMatch s key rest (w, v, e, ws, vs, n, t) =
    let after = String.◌++◌ v (String.◌++◌ "}}" rest) in
    let start = trim_start-spaces w (String.◌++◌ key after) ws ∙ trim_start-name key after n t in
    let (run, more) = name_run-name key after n (stops v rest vs) in
    placeholder_of_steps s (String.◌++◌ w (String.◌++◌ key after)) key after rest
      (ap (strip_two b'{') e ∙ strip_two-opened _) (ap name_run start ∙ run)
      (ap after_name start ∙ more) t
      (ap (strip_two b'}') (trim_start-spaces v _ vs) ∙ strip_two-closed rest)
