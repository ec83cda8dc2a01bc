-- ===== src/Command/Words/Quoting.antt =====
-- Reading a quoted command line.
use pins.Prelude.{
  ℕ, zero, suc, ◌≤◌, ◌<◌, ◌≡◌, refl, ◌∙◌, false, List, [], ◌∷◌, ◌++◌, some, arith, ◌==◌, ◌>>=◌,
  length, All, append-nil, append_assoc,
}
use pins.Go.Text.{Str, is_empty}
use pins.Command.Words.{
  space, quote, unsafe_text, bare, quoted, byte_move, read_word, skip_spaces, max_words, max_word,
  max_line, read_words, parse, escape_quotes, shell_quote, quote_line,
}

read_word-escape_quotes :
    (v w rest : Str)
    → read_word quoted w (escape_quotes v ++ (quote ∷ rest)) ≡ read_word bare (w ++ v) rest
unfolding read_word byte_move escape_quotes
read_word-escape_quotes [] w rest = simp append-nil
read_word-escape_quotes (c ∷ v) w rest = ground (
  arith,
  read_word-escape_quotes v (w ++ quote ∷ []) rest,
  read_word-escape_quotes v (w ++ c ∷ []) rest,
  append_assoc w (quote ∷ []) v,
  append_assoc w (c ∷ []) v,
)

-- A quoted word reads back, and leaves what follows it.
pub read_word-shell_quote :
    (v rest : Str) → read_word bare [] (shell_quote v ++ rest) ≡ read_word bare v rest
unfolding read_word byte_move shell_quote
read_word-shell_quote v rest =
    ground
      (arith, read_word-escape_quotes v [] rest, append_assoc (escape_quotes v) (quote ∷ []) rest)

-- What the bounds of the parser ask of the words.
abbrev pub Short : Str → Type 0
Short w = length w ≤ max_word

skip_spaces-shell_quote :
    (v rest : Str) → skip_spaces (shell_quote v ++ rest) ≡ shell_quote v ++ rest
unfolding skip_spaces shell_quote
skip_spaces-shell_quote v rest = refl

skip_spaces-space : (s : Str) → skip_spaces (space ∷ s) ≡ skip_spaces s
unfolding skip_spaces
skip_spaces-space s = refl

-- The text after the first of the quoted words.
abbrev later : List Str → Str
later [] = []
later (w ∷ ws) = space ∷ quote_line (w ∷ ws)

quote_line-cons : (w : Str) (ws : List Str) → quote_line (w ∷ ws) ≡ shell_quote w ++ later ws
unfolding quote_line
quote_line-cons w [] = simp append-nil
quote_line-cons w (v ∷ ws) = refl

read_word-later : (w : Str) (ws : List Str) → read_word bare w (later ws) ≡ some (w, later ws)
unfolding read_word byte_move
read_word-later w [] = refl
read_word-later w (v ∷ ws) = refl

read_words-later :
    (room : ℕ) (ws : List Str) → read_words room (later ws) ≡ read_words room (quote_line ws)
unfolding read_words quote_line skip_spaces
read_words-later zero [] = refl
read_words-later (suc room) [] = refl
read_words-later zero (w ∷ ws) = refl
read_words-later (suc room) (w ∷ ws) = refl

-- One round of the loop, at a text that begins with no space.
read_words-cons :
    (room c : ℕ) (w s rest : Str)
    → (c == space) ≡ false
    → Short w
    → read_word bare [] (c ∷ s) ≡ some (w, rest)
    → read_words (suc room) (c ∷ s) ≡ (read_words room rest >>= λ ws. some (w ∷ ws))
unfolding read_words skip_spaces
read_words-cons room c w s rest visible short e = ground arith

read_words-shell_quote :
    (room : ℕ) (w rest : Str)
    → Short w
    → read_word bare w rest ≡ some (w, rest)
    → read_words (suc room) (shell_quote w ++ rest) ≡ (read_words room rest >>= λ ws. some (w ∷ ws))
unfolding shell_quote
read_words-shell_quote room w rest short e =
    read_words-cons room quote w ((escape_quotes w ++ quote ∷ []) ++ rest) rest refl short
      (read_word-shell_quote w rest ∙ e)

read_words-quote_line :
    (room : ℕ) (ws : List Str)
    → length ws ≤ room
    → All Short ws
    → read_words room (quote_line ws) ≡ some ws
read_words-quote_line zero [] h short = unfold read_words quote_line skip_spaces in refl
read_words-quote_line zero (w ∷ ws) h short = absurd (omega arith)
read_words-quote_line (suc room) [] h short = unfold read_words quote_line skip_spaces in refl
read_words-quote_line (suc room) (w ∷ ws) h short = rw (
  quote_line-cons w ws,
  read_words-shell_quote room w (later ws) short.0 (read_word-later w ws),
  read_words-later room ws,
  read_words-quote_line room ws (omega arith) short.1,
)

quote_line-nonempty : (w : Str) (ws : List Str) → is_empty (quote_line (w ∷ ws)) ≡ false
unfolding quote_line shell_quote
quote_line-nonempty w [] = refl
quote_line-nonempty w (v ∷ ws) = refl

-- The command line that the client writes for between one and eight words of at most 256 bytes,
-- where it is itself at most 2048 bytes of text that the gate calls safe, parses to those words.
pub parse-quote_line :
    (w : Str) (ws : List Str)
    → length ws < max_words
    → All Short (w ∷ ws)
    → length (quote_line (w ∷ ws)) ≤ max_line
    → unsafe_text (quote_line (w ∷ ws)) ≡ false
    → parse (quote_line (w ∷ ws)) ≡ some (w ∷ ws)
unfolding parse
parse-quote_line w ws count short size safe =
    ground (
      arith,
      quote_line-nonempty w ws,
      read_words-quote_line max_words (w ∷ ws) (omega arith) short,
    )
