-- ===== src/Send/Template.antt =====
-- SendNotificationPage.tsx: `renderTemplate` and `templateVariables`. Both read a text by the
-- expression /\{\{\s*([a-zA-Z0-9_.-]+)\s*\}\}/g: from left to right, at each place the whole match
-- or one character. White space, names and braces share no character, so greed never backtracks.
pub mod Laws
pub mod Matching
pub mod Matches
use Prim.Native.Char.{Char, code}
use Prim.Native.String
use notification_platform.Base.{
  ℕ, zero, suc, String, Bool, true, false, ◌&&◌, ◌||◌, Option, none, some, List, [], ◌∷◌, ◌==◌, leb,
  if◌then◌else◌, trim_start, truthy, text_or_nil, or_text, Dict, get, contains,
}

-- [a-zA-Z0-9_.-]
abbrev pub is_name : ℕ → Bool
is_name c =
    leb b'a' c && leb c b'z'
    || leb b'A' c && leb c b'Z'
    || leb b'0' c && leb c b'9'
    || c == b'_'
    || c == b'.'
    || c == b'-'

unfoldable pub name_run : String → String
name_run String.[] = ""
name_run (String.◌∷◌ c s) =
    let rest = name_run s in if is_name (code c) then String.◌∷◌ c rest else ""

unfoldable pub after_name : String → String
after_name String.[] = ""
after_name (String.◌∷◌ c s) =
    let rest = after_name s in if is_name (code c) then rest else String.◌∷◌ c s

infixl 5 ◌>>=◌
abbrev pub ◌>>=◌ {ℓ κ} : {A : Type ℓ} {B : Type κ} → Option A → (A → Option B) → Option B
none >>= k = none
some a >>= k = k a

-- What follows the two characters `c`, if the text begins with them.
unfoldable pub strip_two : ℕ → String → Option String
strip_two c (String.◌∷◌ d (String.◌∷◌ e s)) = if code d == c && code e == c then some s else none
strip_two c _ = none

unfoldable pub strip_name : String → Option (String × String)
strip_name s = if truthy (name_run s) then some (name_run s, after_name s) else none

-- A match at the start of the text: its name and what follows the match.
unfoldable pub placeholder : String → Option (String × String)
unfolding strip_two strip_name name_run after_name trim_start
placeholder s = do
  inner ← strip_two b'{' s
  (key, rest) ← strip_name (trim_start inner)
  after ← strip_two b'}' (trim_start rest)
  some (key, after)

pub data Piece : Type 0 where
  raw : Char → Piece
  hole : String → Piece

abbrev pub chars : String → ℕ
chars String.[] = 0
chars (String.◌∷◌ c s) = suc (chars s)

-- The text cut into matches and single characters; fuel for one piece each round.
unfoldable pub scan : ℕ → String → List Piece
scan zero s = []
scan (suc fuel) String.[] = []
scan (suc fuel) (String.◌∷◌ c s) = elim (placeholder (String.◌∷◌ c s)) [
  | none ↦ raw c ∷ scan fuel s
  | some (key, rest) ↦ hole key ∷ scan fuel rest
]

-- One round for each character is enough.
unfoldable pub pieces : String → List Piece
unfolding scan
pieces s = scan (chars s) s

abbrev pub braced : String → String
braced key = String.◌++◌ "{{" (String.◌++◌ key "}}")

-- `values[key] || '{{key}}'`
unfoldable pub fill : Dict String → Piece → String
fill values (raw c) = String.◌∷◌ c ""
fill values (hole key) = or_text (text_or_nil (get key values)) (braced key)

unfoldable pub join : Dict String → List Piece → String
unfolding fill
join values [] = ""
join values (p ∷ ps) = String.◌++◌ (fill values p) (join values ps)

unfoldable pub render_template : String → Dict String → String
unfolding join pieces
render_template template values = join values (pieces template)

unfoldable pub keys_of : List Piece → List String
keys_of [] = []
keys_of (raw c ∷ ps) = keys_of ps
keys_of (hole key ∷ ps) = key ∷ keys_of ps

-- `[...new Set(xs)]`
unfoldable pub dedupe_from : List String → List String → List String
dedupe_from seen [] = []
dedupe_from seen (x ∷ xs) =
    let again = dedupe_from seen xs in
    let first = x ∷ dedupe_from (x ∷ seen) xs in if contains seen x then again else first

unfoldable pub dedupe : List String → List String
unfolding dedupe_from
dedupe xs = dedupe_from [] xs

unfoldable pub template_source : String → String → String
template_source subject body = String.◌++◌ subject (String.◌++◌ "\n" body)

-- `templateVariables` of a template with this subject and body.
unfoldable pub template_variables : String → String → List String
unfolding pieces keys_of dedupe template_source
template_variables subject body = dedupe (keys_of (pieces (template_source subject body)))
