-- ===== src/Base/Texts.antt =====
-- JavaScript text as native strings. White space is ECMAScript's; `length` counts UTF-16 units.
-- Lone surrogates have no native string and are not represented.
use Prim.Native.Nat.{ℕ, ◌+◌}
use Prim.Native.Char.{Char, code}
use Prim.Native.String.{String, [], ◌∷◌}
use mathlib.Core.Path.{◌≡◌}
use mathlib.Core.Bool.{Bool, true, false, not, ◌&&◌, ◌||◌}
use mathlib.Core.Option.{Option, none, some}
use text.Mathlib.Text.{◌==◌ as str_eq}
use notification_platform.Base.Tests.{leb, ◌==◌, if◌then◌else◌}

-- `s === t`
infix 50 ◌===◌
abbrev pub ◌===◌ : String → String → Bool
s === t = str_eq s t

-- A text is truthy when it is not "".
abbrev pub truthy : String → Bool
truthy [] = false
truthy (_ ∷ _) = true

-- `s || t`
abbrev pub or_text : String → String → String
or_text [] t = t
or_text (c ∷ s) t = c ∷ s

-- `o ?? ''`, and `o || ''`
abbrev pub text_or_nil : Option String → String
text_or_nil none = ""
text_or_nil (some s) = s

abbrev pub is_space : ℕ → Bool
is_space c =
    leb 9 c && leb c 13
    || c == 32
    || c == 0xa0
    || c == 0x1680
    || leb 0x2000 c && leb c 0x200a
    || c == 0x2028
    || c == 0x2029
    || c == 0x202f
    || c == 0x205f
    || c == 0x3000
    || c == 0xfeff

unfoldable pub trim_start : String → String
trim_start [] = ""
trim_start (c ∷ s) = let rest = trim_start s in if is_space (code c) then rest else c ∷ s

-- `c` followed by trimmed text: `c` goes too if it is white space and nothing is left.
pub push_trimmed : Char → String → String
push_trimmed c [] = if is_space (code c) then "" else c ∷ []
push_trimmed c (d ∷ s) = c ∷ d ∷ s

pub trim_end : String → String
trim_end [] = ""
trim_end (c ∷ s) = push_trimmed c (trim_end s)

-- `s.trim()`
unfoldable pub trim : String → String
unfolding trim_start trim_end push_trimmed
trim s = trim_end (trim_start s)

-- `!s.trim()`
abbrev pub blank : String → Bool
blank s = not (truthy (trim s))

-- Every character is white space.
abbrev pub IsSpaces : String → Type 0
IsSpaces [] = Unit
IsSpaces (c ∷ s) = (is_space (code c) ≡ true) × IsSpaces s

abbrev pub utf16_width : Char → ℕ
utf16_width c = if leb 0x10000 (code c) then 2 else 1

-- `s.length`
unfoldable pub utf16_length : String → ℕ
utf16_length [] = 0
utf16_length (c ∷ s) = utf16_width c + utf16_length s

-- `s.startsWith(t)`
unfoldable pub has_prefix : String → String → Bool
has_prefix s [] = true
has_prefix [] (d ∷ t) = false
has_prefix (c ∷ s) (d ∷ t) = code c == code d && has_prefix s t

-- `s.includes(t)`
unfoldable pub includes : String → String → Bool
unfolding has_prefix
includes [] t = has_prefix "" t
includes (c ∷ s) t = has_prefix (c ∷ s) t || includes s t
