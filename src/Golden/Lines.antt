-- ===== src/Golden/Lines.antt =====
-- `diff` of sdk/scripts/golden.ts, with the splitting of text and `JSON.stringify` of a line.
use zksoroban.Prelude.{
  ℕ, suc, Bool, false, ◌&&◌, ◌||◌, List, [], ◌∷◌, ◌++◌, ltb, leb, ◌==◌, if◌then◌else◌,
}
use zksoroban.Js.Text.{Text, text, text_eq, join, pad_start}
use zksoroban.Js.Numeral.{to_string}
use zksoroban.Cli.{newline, quoted}

abbrev pub onto_first : ℕ → List Text → List Text
onto_first c [] = (c ∷ []) ∷ []
onto_first c (line ∷ lines) = (c ∷ line) ∷ lines

-- `s.split("\n")`
unfoldable pub split_lines : Text → List Text
split_lines [] = [] ∷ []
split_lines (c ∷ s) = let rest = split_lines s in if c == 10 then [] ∷ rest else onto_first c rest

abbrev pub is_high : ℕ → Bool
is_high c = leb 0xd800 c && leb c 0xdbff

abbrev pub is_low : ℕ → Bool
is_low c = leb 0xdc00 c && leb c 0xdfff

abbrev pub unicode_escape : ℕ → Text
unicode_escape c = b'\\' ∷ b'u' ∷ pad_start 4 b'0' (to_string 16 c)

-- A code unit inside a JSON string; `paired` says that a surrogate has its other half.
unfoldable pub json_char : Bool → ℕ → Text
json_char paired c =
    if c == b'"'
    then b'\\' ∷ b'"' ∷ []
    else if c == b'\\'
    then b'\\' ∷ b'\\' ∷ []
    else if c == 8
    then b'\\' ∷ b'b' ∷ []
    else if c == 9
    then b'\\' ∷ b't' ∷ []
    else if c == 10
    then b'\\' ∷ b'n' ∷ []
    else if c == 12
    then b'\\' ∷ b'f' ∷ []
    else if c == 13
    then b'\\' ∷ b'r' ∷ []
    else if ltb c 32
    then unicode_escape c
    else if paired
    then c ∷ []
    else if is_high c || is_low c
    then unicode_escape c
    else c ∷ []

abbrev pub starts_low : Text → Bool
starts_low [] = false
starts_low (c ∷ s) = is_low c

-- The units of a string; `after_high` says that a high surrogate with this half stands in front.
unfoldable pub json_chars : Bool → Text → Text
json_chars after_high [] = []
json_chars after_high (c ∷ s) =
    let opens = is_high c && starts_low s in json_char (after_high || opens) c ++ json_chars opens s

-- `JSON.stringify(s)` on a string.
unfoldable pub json_string : Text → Text
json_string s = quoted (json_chars false s)

-- The lines that the loop of `diff` adds for the lines at an index.
unfoldable pub line_diff : ℕ → Text → Text → List Text
line_diff i e a =
    if text_eq e a
    then []
    else (text "  line " ++ to_string 10 (suc i) ++ text ":")
      ∷ (text "    - expected: " ++ json_string e)
      ∷ (text "    + actual:   " ++ json_string a)
      ∷ []

-- The loop of `diff` from an index on; a missing line is empty.
unfoldable pub diff_lines : ℕ → List Text → List Text → List Text
diff_lines i [] [] = []
diff_lines i (e ∷ es) [] = line_diff i e [] ++ diff_lines (suc i) es []
diff_lines i [] (a ∷ actual) = line_diff i [] a ++ diff_lines (suc i) [] actual
diff_lines i (e ∷ es) (a ∷ actual) = line_diff i e a ++ diff_lines (suc i) es actual

unfoldable pub diff : Text → Text → Text
diff expected actual = join newline (diff_lines 0 (split_lines expected) (split_lines actual))
