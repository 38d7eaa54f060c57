-- ===== src/TenantDetail/Guide/Examples/Reading.antt =====
-- How the programs that are given the examples of IntegrationGuide.tsx read quoted text: a POSIX shell
-- its words, and the languages their string and number literals.
use Prim.Native.Char.{Char, code}
use Prim.Native.String.{◌++◌}
use text.Mathlib.TextLemmas.{append-nil, append_assoc, nil-append, cons-append}
use notification_platform.TenantDetail.Guide.Examples.Lines.{lines}
use notification_platform.Base.{
  ℕ, String, Bool, true, not, ◌&&◌, ◌||◌, List, [], ◌∷◌, ◌≡◌, refl, ◌∙◌, ap, arith, ◌==◌, leb,
  if◌then◌else◌,
}

pub data ReaderMode : Type 0 where
  between bare quoted escaped : ReaderMode

-- The mode, the word that is being read, and those that are read, the last one first.
pub record Reader : Type 0 where
  pub mode : ReaderMode
  pub word : String
  pub words : List String

unfoldable pub unread : Reader
unread = record { mode = between; word = ""; words = [] }

abbrev pub take_in : ReaderMode → Char → Reader → Reader
take_in mode c r = record r { mode = mode; word = r.word ++ String.◌∷◌ c "" }

abbrev pub finish : Reader → Reader
finish r = record r { mode = between; word = ""; words = r.word ∷ r.words }

abbrev apostrophe : ℕ
apostrophe = 39

abbrev backslash : ℕ
backslash = 92

abbrev is_blank : ℕ → Bool
is_blank c = c == 32 || c == 9 || c == 10

-- Outside quotes: blanks end a word, an apostrophe opens a quotation, and a backslash quotes the next
-- character; a backslash before a line feed is left out with it.
abbrev pub shell_mode : ReaderMode → Char → Reader → Reader
shell_mode between c r =
    if is_blank (code c)
    then r
    else if code c == apostrophe
    then record r { mode = quoted }
    else if code c == backslash
    then record r { mode = escaped }
    else take_in bare c r
shell_mode bare c r =
    if is_blank (code c)
    then finish r
    else if code c == apostrophe
    then record r { mode = quoted }
    else if code c == backslash
    then record r { mode = escaped }
    else take_in bare c r
shell_mode quoted c r =
    if code c == apostrophe then record r { mode = bare } else take_in quoted c r
shell_mode escaped c r =
    if code c == 10
    then record r { mode = elim r.word [ String.[] ↦ between | String.◌∷◌ d s ↦ bare ] }
    else take_in bare c r

unfoldable pub shell : Char → Reader → Reader
shell c r = shell_mode r.mode c r

abbrev is_word : ℕ → Bool
is_word c = leb b'a' c && leb c b'z' || leb b'A' c && leb c b'Z' || leb b'0' c && leb c b'9'

-- The literals of a text, whose strings stand between two characters `q`; a backslash in a string, which
-- the languages take in different ways, ends the reading.
abbrev pub literal_mode : ℕ → ReaderMode → Char → Reader → Reader
literal_mode q between c r =
    if code c == q
    then record r { mode = quoted }
    else if is_word (code c)
    then take_in bare c r
    else r
literal_mode q bare c r = if is_word (code c) then take_in bare c r else finish r
literal_mode q quoted c r =
    if code c == q
    then finish r
    else if code c == backslash
    then record r { mode = escaped }
    else take_in quoted c r
literal_mode q escaped c r = r

unfoldable pub literal : ℕ → Char → Reader → Reader
literal q c r = literal_mode q r.mode c r

unfoldable pub run : (Char → Reader → Reader) → Reader → String → Reader
run step r String.[] = r
run step r (String.◌∷◌ c s) = run step (step c r) s

abbrev pub words_at_end : ReaderMode → Reader → List String
words_at_end between r = r.words
words_at_end mode r = r.word ∷ r.words

-- The words, the last one first.
unfoldable pub shell_words : String → List String
unfolding run shell unread
shell_words s = let r = run shell unread s in words_at_end r.mode r

unfoldable pub literals : ℕ → String → List String
unfolding run literal unread
literals q s = let r = run (literal q) unread s in words_at_end r.mode r

unfoldable pub all_codes : (ℕ → Bool) → String → Bool
all_codes p String.[] = true
all_codes p (String.◌∷◌ c s) = p (code c) && all_codes p s

pub all_codes-append :
    (p : ℕ → Bool) (s t : String)
    → all_codes p s ≡ true
    → all_codes p t ≡ true
    → all_codes p (s ++ t) ≡ true
unfolding all_codes
all_codes-append p String.[] t h k = rw nil-append k
all_codes-append p (String.◌∷◌ c s) t h k =
    rw (cons-append c s t) (ground (arith, all_codes-append p s t))

-- No apostrophe: a quotation of a shell may hold it.
abbrev pub unquoted : ℕ → Bool
unquoted c = not (c == apostrophe)

-- Neither `q` nor a backslash: a string literal may hold it.
abbrev pub plain_in : ℕ → ℕ → Bool
plain_in q c = not (c == q) && not (c == backslash)

run-append :
    (step : Char → Reader → Reader) (r : Reader) (s t : String)
    → run step r (s ++ t) ≡ run step (run step r s) t
unfolding run
run-append step r String.[] t = rw nil-append
run-append step r (String.◌∷◌ c s) t = rw (cons-append c s t) (run-append step (step c r) s t)

-- A text is read piece by piece.
pub run_piece :
    (step : Char → Reader → Reader) (r r' : Reader) (s t : String) {z : Reader}
    → run step r s ≡ r'
    → run step r' t ≡ z
    → run step r (s ++ t) ≡ z
run_piece step r r' s t h k = run-append step r s t ∙ ap (λ (x : Reader). run step x t) h ∙ k

-- The lines of a text, read one after the other.
unfoldable pub run_lines : (Char → Reader → Reader) → Reader → List String → Reader
unfolding run
run_lines step r [] = r
run_lines step r (l ∷ []) = run step r l
run_lines step r (l ∷ m ∷ ls) = run_lines step (run step (run step r l) "\n") (m ∷ ls)

pub run-lines :
    (step : Char → Reader → Reader) (r : Reader) (ls : List String)
    → run step r (lines ls) ≡ run_lines step r ls
unfolding run_lines lines
run-lines step r [] = unfold run in refl
run-lines step r (l ∷ []) = refl
run-lines step r (l ∷ m ∷ ls) = run_piece step r _ l ("\n" ++ lines (m ∷ ls)) refl (
    run_piece step (run step r l) _ "\n" (lines (m ∷ ls)) refl
      (run-lines step (run step (run step r l) "\n") (m ∷ ls)))

-- A text within a quotation, between two others.
pub run_inside :
    (step : Char → Reader → Reader) (r : Reader) (a b s : String)
    → ((w : String) (ws : List String)
        → run step (record { mode = quoted; word = w; words = ws }) s
          ≡ record { mode = quoted; word = w ++ s; words = ws })
    → (run step r a).mode ≡ quoted
    → run step r (a ++ s ++ b)
      ≡ run step (record (run step r a) { mode = quoted; word = (run step r a).word ++ s }) b
run_inside step r a b s keep m =
    let r' = run step r a in
    run_piece step r (record { mode = quoted; word = r'.word; words = r'.words }) a (s ++ b)
      (ap
        (λ (m : ReaderMode).
          let x : Reader = record { mode = m; word = r'.word; words = r'.words } in x)
        m)
      (run_piece step _ _ s b (keep r'.word r'.words) refl)

-- A reader that takes some characters into a quoted word takes a text of them whole.
run_plain :
    (step : Char → Reader → Reader) (p : ℕ → Bool)
    → ((c : Char) (w : String) (ws : List String)
        → p (code c) ≡ true
        → step c (record { mode = quoted; word = w; words = ws })
          ≡ record { mode = quoted; word = w ++ String.◌∷◌ c ""; words = ws })
    → (s w : String) (ws : List String) → all_codes p s ≡ true
    → run step (record { mode = quoted; word = w; words = ws }) s
      ≡ record { mode = quoted; word = w ++ s; words = ws }
unfolding run all_codes
run_plain step p keep String.[] w ws h = rw append-nil
run_plain step p keep (String.◌∷◌ c s) w ws h =
    ap (λ (r : Reader). run step r s) (keep c w ws (ground arith))
    ∙ run_plain step p keep s (w ++ String.◌∷◌ c "") ws (ground arith)
    ∙ ap (λ (v : String). let r : Reader = record { mode = quoted; word = v; words = ws } in r)
        (append_assoc w (String.◌∷◌ c "") s
          ∙ ap (λ (v : String). w ++ v) (cons-append c "" s)
          ∙ ap (λ (v : String). w ++ String.◌∷◌ c v) (nil-append s))

pub shell_plain :
    (s w : String) (ws : List String)
    → all_codes unquoted s ≡ true
    → run shell (record { mode = quoted; word = w; words = ws }) s
      ≡ record { mode = quoted; word = w ++ s; words = ws }
unfolding shell
shell_plain = run_plain shell unquoted (λ c w ws h. ground arith)

pub literal_plain :
    (q : ℕ) (s w : String) (ws : List String)
    → all_codes (plain_in q) s ≡ true
    → run (literal q) (record { mode = quoted; word = w; words = ws }) s
      ≡ record { mode = quoted; word = w ++ s; words = ws }
unfolding literal
literal_plain q = run_plain (literal q) (plain_in q) (λ c w ws h. ground arith)
