-- ===== src/Templates/Markdown/Laws.antt =====
-- What `renderMarkdownLite` leaves of a text.
use Prim.Native.Char.{Char, code}
use Prim.Native.String.{String, [], ◌∷◌, ◌++◌}
use text.Mathlib.TextLemmas.{nil-append, cons-append}
use notification_platform.Base.{
  ℕ, zero, suc, ◌≤◌, ◌<◌, Bool, true, false, not, ◌&&◌, ◌||◌, Option, none, some, ◌==◌,
  if◌then◌else◌, ◌≡◌, refl, ◌∙◌, ap, sym, inl, inr, arith, Bool-cases, Option-cases,
}
use notification_platform.Send.Template.{chars, strip_two}
use notification_platform.Templates.Markdown.{
  is_line_end, before, closing, marked, code_end, code_span, replace_from, replace_marks,
  render_markdown_lite,
}

abbrev pub is_mark : ℕ → Bool
is_mark c = c == b'*' || c == b'_' || c == b'`'

-- A text without its asterisks, underscores and backticks.
unfoldable pub bare : String → String
bare [] = ""
bare (c ∷ s) = let rest = bare s in if is_mark (code c) then rest else c ∷ rest

bare-append : (s t : String) → bare (s ++ t) ≡ bare s ++ bare t
unfolding bare
bare-append [] t = ap bare (nil-append t) ∙ sym (nil-append (bare t))
bare-append (c ∷ s) t = elim (Bool-cases (is_mark (code c))) [
  | inl e ↦ ap bare (cons-append c s t) ∙ rw e (bare-append s t)
  | inr e ↦
      ap bare (cons-append c s t)
      ∙ rw e (ap (λ (u : String). c ∷ u) (bare-append s t) ∙ sym (cons-append c (bare s) (bare t)))
]

-- What a match keeps: a rest that is shorter, and no character but marks is lost.
abbrev pub Keeps : String → Option (String × String) → Type 0
Keeps s none = Unit
Keeps s (some (content, rest)) = (chars rest < chars s) × (bare s ≡ bare content ++ bare rest)

strip_two-bare :
    (m : ℕ) (s rest : String)
    → is_mark m ≡ true
    → strip_two m s ≡ some rest
    → (chars rest < chars s) × (bare s ≡ bare rest)
unfolding strip_two bare
strip_two-bare m [] rest k h = cc
strip_two-bare m (c ∷ []) rest k h = cc
strip_two-bare m (c ∷ (d ∷ s)) rest k h = ground arith

before-Keeps :
    (c : Char) (s : String) (o : Option (String × String)) → Keeps s o → Keeps (c ∷ s) (before c o)
unfolding bare
before-Keeps c s none k = tt
before-Keeps c s (some (content, rest)) k = elim (Bool-cases (is_mark (code c))) [
  | inl e ↦ (omega (arith, k.0), rw e k.1)
  | inr e ↦ (
    omega (arith, k.0),
    rw e (ap (λ (u : String). c ∷ u) k.1 ∙ sym (cons-append c (bare content) (bare rest))),
  )
]

-- The start of the match is taken away too.
longer :
    (s t : String) (o : Option (String × String))
    → chars t < chars s
    → bare s ≡ bare t
    → Keeps t o
    → Keeps s o
longer s t none l e k = tt
longer s t (some (content, rest)) l e k = (omega (arith, k.0), e ∙ k.1)

closing-Keeps : (m : ℕ) (s : String) → is_mark m ≡ true → Keeps s (closing m s)
unfolding closing bare
closing-Keeps m [] k = tt
closing-Keeps m (c ∷ s) k = elim (Option-cases (strip_two m (c ∷ s))) [
  | inr (rest, e) ↦
      let (short, same) = strip_two-bare m (c ∷ s) rest k e in
      rw (e, closing) (short, same ∙ sym (nil-append (bare rest)))
  | inl e ↦ elim (Bool-cases (is_line_end (code c))) [
    | inl l ↦ rw (e, closing, l) tt
    | inr l ↦ rw (e, closing, l) (before-Keeps c s (closing m s) (closing-Keeps m s k))
  ]
]

marked-Keeps : (m : ℕ) (s : String) → is_mark m ≡ true → Keeps s (marked m s)
unfolding marked
marked-Keeps m s k = elim (Option-cases (strip_two m s)) [
  | inl e ↦ rw (e, marked) tt
  | inr (rest, e) ↦
      let (short, same) = strip_two-bare m s rest k e in
      rw (e, marked) (longer s rest (closing m rest) short same (closing-Keeps m rest k))
]

bare_backtick : (c : Char) (s : String) → (code c == b'`') ≡ true → bare (c ∷ s) ≡ bare s
unfolding bare
bare_backtick c s e = ground arith

code_end-Keeps : (any : Bool) (s : String) → Keeps s (code_end any s)
unfolding code_end bare
code_end-Keeps any [] = tt
code_end-Keeps any (c ∷ s) = elim (Bool-cases (code c == b'`')) [
  | inl e ↦ elim (Bool-cases any) [
    | inl f ↦ rw (e, f) (omega arith, bare_backtick c s e ∙ sym (nil-append (bare s)))
    | inr f ↦ rw (e, f) tt
  ]
  | inr e ↦ rw e (before-Keeps c s (code_end true s) (code_end-Keeps true s))
]

code_span-Keeps : (s : String) → Keeps s (code_span s)
unfolding code_span bare
code_span-Keeps [] = tt
code_span-Keeps (c ∷ s) = elim (Bool-cases (code c == b'`')) [
  | inl e ↦ rw e (
      longer (c ∷ s) s (code_end false s) (omega arith) (bare_backtick c s e)
        (code_end-Keeps false s))
  | inr e ↦ rw e tt
]

bare_cons : (c : Char) (s t : String) → bare s ≡ bare t → bare (c ∷ s) ≡ bare (c ∷ t)
unfolding bare
bare_cons c s t e = elim (Bool-cases (is_mark (code c))) [
  | inl m ↦ rw m e
  | inr m ↦ rw m (ap (λ (u : String). c ∷ u) e)
]

module _ (match : String → Option (String × String))
    (keeps : (s : String) → Keeps s (match s)) where
  bare-replace_from :
      (fuel : ℕ) (s : String) → chars s ≤ fuel → bare (replace_from match fuel s) ≡ bare s
  unfolding replace_from
  bare-replace_from zero [] h = refl
  bare-replace_from zero (c ∷ s) h = absurd (omega arith)
  bare-replace_from (suc fuel) [] h = refl
  bare-replace_from (suc fuel) (c ∷ s) h = elim (Option-cases (match (c ∷ s))) [
    | inl e ↦ rw (e, replace_from) (bare_cons c _ s (bare-replace_from fuel s (omega arith)))
    | inr ((content, rest), e) ↦
        let k : Keeps (c ∷ s) (some (content, rest)) = rw e at (keeps (c ∷ s)) in
        rw (e, replace_from)
          (bare-append content (replace_from match fuel rest)
            ∙ ap (λ (u : String). bare content ++ u)
                (bare-replace_from fuel rest (omega (arith, k.0)))
            ∙ sym k.1)
  ]

  bare-replace_marks : (s : String) → bare (replace_marks match s) ≡ bare s
  unfolding replace_marks
  bare-replace_marks s = bare-replace_from (chars s) s (omega arith)

-- A text without marks.
unfoldable pub unmarked : String → Bool
unmarked [] = true
unmarked (c ∷ s) = not (is_mark (code c)) && unmarked s

no_mark :
    (m : ℕ) (c : Char) (s : String)
    → is_mark m ≡ true
    → is_mark (code c) ≡ false
    → marked m (c ∷ s) ≡ none
unfolding marked strip_two
no_mark m c [] k h = refl
no_mark m c (d ∷ s) k h =
    let e : strip_two m (c ∷ d ∷ s) ≡ none = ground arith in rw (e, marked) refl

no_span : (c : Char) (s : String) → is_mark (code c) ≡ false → code_span (c ∷ s) ≡ none
unfolding code_span
no_span c s h = ground arith

replace_from-unmarked :
    (match : String → Option (String × String))
    → ((c : Char) (s : String) → is_mark (code c) ≡ false → match (c ∷ s) ≡ none)
    → (fuel : ℕ) (s : String) → chars s ≤ fuel
    → unmarked s ≡ true
    → replace_from match fuel s ≡ s
unfolding replace_from unmarked
replace_from-unmarked match skip zero [] h u = refl
replace_from-unmarked match skip zero (c ∷ s) h u = absurd (omega arith)
replace_from-unmarked match skip (suc fuel) [] h u = refl
replace_from-unmarked match skip (suc fuel) (c ∷ s) h u =
    rw (skip c s (ground arith), replace_from)
      (ap (λ (t : String). c ∷ t)
        (replace_from-unmarked match skip fuel s (omega arith) (ground arith)))

replace_marks-unmarked :
    (match : String → Option (String × String))
    → ((c : Char) (s : String) → is_mark (code c) ≡ false → match (c ∷ s) ≡ none)
    → (s : String) → unmarked s ≡ true
    → replace_marks match s ≡ s
unfolding replace_marks
replace_marks-unmarked match skip s u = replace_from-unmarked match skip (chars s) s (omega arith) u

-- A text without marks is rendered as it is.
pub render_markdown_lite-unmarked :
    (value : String) → unmarked value ≡ true → render_markdown_lite value ≡ value
unfolding render_markdown_lite
render_markdown_lite-unmarked value u =
    let under = replace_marks-unmarked (marked b'_') (λ c s h. no_mark b'_' c s refl h) in
    let star = replace_marks-unmarked (marked b'*') (λ c s h. no_mark b'*' c s refl h) in
    let ticks = replace_marks-unmarked code_span no_span in
    ap (λ (s : String). replace_marks code_span (replace_marks (marked b'_') s)) (star value u)
    ∙ ap (λ (s : String). replace_marks code_span s) (under value u)
    ∙ ticks value u

-- Whatever the text, `renderMarkdownLite` takes away or leaves asterisks, underscores and backticks only:
-- without them the rendered text is the text without them.
pub bare-render_markdown_lite : (value : String) → bare (render_markdown_lite value) ≡ bare value
unfolding render_markdown_lite
bare-render_markdown_lite value =
    bare-replace_marks code_span code_span-Keeps _
    ∙ bare-replace_marks (marked b'_') (λ s. marked-Keeps b'_' s refl) _
    ∙ bare-replace_marks (marked b'*') (λ s. marked-Keeps b'*' s refl) value
