-- ===== src/Command/Words.antt =====
-- `Parse` of internal/sshcommand/gate.go, and `shellQuote` of cmd/21pins/ssh.go, which writes what
-- it reads. `none` is the error `Denied`.
pub mod Quoting
use pins.Prelude.{
  ℕ, zero, suc, ◌+◌, ◌≤◌, ◌≡◌, refl, Bool, ◌&&◌, ◌||◌, List, [], ◌∷◌, ◌++◌, map, true, Option, none,
  some, leb, ltb, ◌==◌, if◌then◌else◌, ◌>>=◌, length,
}
use pins.Go.Text.{Str, codes, member, contains_byte, is_empty, join}
use pins.Go.Utf8.{valid_string, has_hidden}

abbrev pub space : ℕ
space = b' '

abbrev pub quote : ℕ
quote = 39

abbrev pub double_quote : ℕ
double_quote = 34

-- `unsafeText`
unfoldable pub unsafe_text : Str → Bool
unsafe_text s = if valid_string s then has_hidden s else true

-- The bytes that a word may have outside quotes.
unfoldable pub is_plain : ℕ → Bool
unfolding contains_byte
is_plain c =
    leb b'a' c && leb c b'z'
    || leb b'A' c && leb c b'Z'
    || leb b'0' c && leb c b'9'
    || contains_byte (codes "/_.,:@%+=-") c

-- Where the loop over a word stands: outside quotes, between single quotes, and after the first or
-- the second byte of the three that spell a quote.
pub data Mode : Type 0 where
  bare quoted escape_1 escape_2 : Mode

-- What one byte does: it ends the word, is denied, or leads on with a longer word.
pub data Move : Type 0 where
  stop deny : Move
  go : Mode → Str → Move

pub byte_move : Mode → Str → ℕ → Move
byte_move bare word c =
    if c == space
    then stop
    else if c == quote
    then go quoted word
    else if c == double_quote
    then go escape_1 word
    else if is_plain c
    then go bare (word ++ c ∷ [])
    else deny
byte_move quoted word c = if c == quote then go bare word else go quoted (word ++ c ∷ [])
byte_move escape_1 word c = if c == quote then go escape_2 word else deny
byte_move escape_2 word c = if c == double_quote then go bare (word ++ quote ∷ []) else deny

-- The loop over one word: the word, and the text from the space that ends it.
pub read_word : Mode → Str → Str → Option (Str × Str)
read_word bare word [] = some (word, [])
read_word quoted word [] = none
read_word escape_1 word [] = none
read_word escape_2 word [] = none
read_word mode word (c ∷ s) = elim (byte_move mode word c) [
  | stop ↦ some (word, c ∷ s)
  | deny ↦ none
  | go mode' word' ↦ read_word mode' word' s
]

pub skip_spaces : Str → Str
skip_spaces [] = []
skip_spaces (c ∷ s) = let rest = skip_spaces s in if c == space then rest else c ∷ s

abbrev pub max_words : ℕ
max_words = 8

abbrev pub max_word : ℕ
max_word = 256

abbrev pub max_line : ℕ
max_line = 2048

-- The loop over the words. `room` is 8 less the words so far, and a word that finds no room is
-- denied, so the loop ends with no fuel.
unfoldable pub read_words : ℕ → Str → Option (List Str)
unfolding byte_move read_word skip_spaces
read_words zero s = if is_empty (skip_spaces s) then some [] else none
read_words (suc room) s = elim (skip_spaces s) [
  | [] ↦ some []
  | c ∷ r ↦ do
    (word, rest) ← read_word bare [] (c ∷ r)
    if ltb max_word (length word)
        then none
        else do words ← read_words room rest; some (word ∷ words)
]

abbrev nonempty : List Str → Option (List Str)
nonempty [] = none
nonempty (w ∷ ws) = some (w ∷ ws)

-- `Parse`
unfoldable pub parse : Str → Option (List Str)
parse s =
    if is_empty s || ltb max_line (length s) || unsafe_text s
    then none
    else (read_words max_words s >>= nonempty)

-- `strings.ReplaceAll(s, "'", "'\"'\"'")`
pub escape_quotes : Str → Str
escape_quotes [] = []
escape_quotes (c ∷ s) =
    (if c == quote then quote ∷ double_quote ∷ quote ∷ double_quote ∷ quote ∷ [] else c ∷ [])
    ++ escape_quotes s

-- `shellQuote`
unfoldable pub shell_quote : Str → Str
unfolding escape_quotes
shell_quote s = quote ∷ (escape_quotes s ++ quote ∷ [])

-- `strings.Join(quoted, " ")`, the remote command that `ssh` is given.
unfoldable pub quote_line : List Str → Str
unfolding join
quote_line ws = join (space ∷ []) (map shell_quote ws)
