-- ===== src/Templates/Markdown.antt =====
-- `renderMarkdownLite`, which TemplatesPage.tsx, SendNotificationPage.tsx and TenantDetailPage.tsx each
-- declare: three passes over a text, each of which takes away the marks round what its expression matches.
-- A match is tried at each place from left to right, and the text goes on after it.
pub mod Laws
use Prim.Native.Char.{Char, code}
use Prim.Native.String.{String, [], ◌∷◌, ◌++◌}
use notification_platform.Base.{
  ℕ, zero, suc, Bool, true, false, ◌&&◌, ◌||◌, Option, none, some, ◌==◌, if◌then◌else◌,
}
use notification_platform.Send.Template.{chars, strip_two}

-- What `.` does not match.
abbrev pub is_line_end : ℕ → Bool
is_line_end c = c == 10 || c == 13 || c == 0x2028 || c == 0x2029

abbrev pub before : Char → Option (String × String) → Option (String × String)
before c none = none
before c (some (content, rest)) = some (c ∷ content, rest)

-- (.*?) and the two closing characters `m`: what is between, and what follows.
unfoldable pub closing : ℕ → String → Option (String × String)
unfolding strip_two
closing m [] = none
closing m (c ∷ s) =
    let later = before c (closing m s) in
    elim (strip_two m (c ∷ s)) [
      | some rest ↦ some ("", rest)
      | none ↦ if is_line_end (code c) then none else later
    ]

-- A match of two characters `m`, (.*?), and two characters `m`, at the start of a text.
unfoldable pub marked : ℕ → String → Option (String × String)
unfolding strip_two closing
marked m s = elim (strip_two m s) [ none ↦ none | some rest ↦ closing m rest ]

-- The rest of [^`]+ and the backtick; the flag tells that a character was matched.
unfoldable pub code_end : Bool → String → Option (String × String)
code_end any [] = none
code_end any (c ∷ s) =
    if code c == b'`' then (if any then some ("", s) else none) else before c (code_end true s)

unfoldable pub code_span : String → Option (String × String)
unfolding code_end
code_span [] = none
code_span (c ∷ s) = if code c == b'`' then code_end false s else none

-- `value.replace(expression, '$1')`; fuel for one match or character each round.
unfoldable pub replace_from : (String → Option (String × String)) → ℕ → String → String
replace_from match zero s = ""
replace_from match (suc fuel) [] = ""
replace_from match (suc fuel) (c ∷ s) = elim (match (c ∷ s)) [
  | none ↦ c ∷ replace_from match fuel s
  | some (content, rest) ↦ content ++ replace_from match fuel rest
]

-- One round for each character is enough.
unfoldable pub replace_marks : (String → Option (String × String)) → String → String
unfolding replace_from
replace_marks match s = replace_from match (chars s) s

unfoldable pub render_markdown_lite : String → String
unfolding replace_marks marked code_span
render_markdown_lite value =
    replace_marks code_span (replace_marks (marked b'_') (replace_marks (marked b'*') value))
