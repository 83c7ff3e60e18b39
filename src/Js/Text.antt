-- ===== src/Js/Text.antt =====
-- JavaScript strings as lists of UTF-16 code units, and the string methods that the sources call.
use Prim.Native.Char.{code}
use zksoroban.Prelude.{
  ℕ, ◌-◌, ◌≤◌, String, Bool, true, false, ◌&&◌, ◌||◌, List, [], ◌∷◌, ◌++◌, ◌≡◌, ◌≢◌, refl, arith,
  ltb, Bool-cases, inl, inr, leb, ◌==◌, if◌then◌else◌, length, take, replicate, length-append,
  length-replicate,
}

abbrev pub Text : Type 0
Text = List ℕ

-- The code units of a literal in the source, for characters of the basic plane.
unfoldable pub text : String → Text
text String.[] = []
text (String.◌∷◌ c s) = code c ∷ text s

-- `a === b` on strings.
unfoldable pub text_eq : Text → Text → Bool
text_eq [] [] = true
text_eq (x ∷ a) (y ∷ b) = x == y && text_eq a b
text_eq _ _ = false

pub text_eq_refl : (a : Text) → text_eq a a ≡ true
unfolding text_eq
text_eq_refl [] = refl
text_eq_refl (x ∷ a) = ground (arith, text_eq_refl a)

pub text_eq_sound : (a b : Text) → text_eq a b ≡ true → a ≡ b
unfolding text_eq
text_eq_sound [] [] h = refl
text_eq_sound (x ∷ a) (y ∷ b) h = ground (arith, text_eq_sound a b)
text_eq_sound _ _ h = absurd_bool h
  where
    absurd_bool : {A : Type 0} → false ≡ true → A
    absurd_bool h = absurd (cc)

pub neq-of_text_eq : (a b : Text) → text_eq a b ≡ false → a ≢ b
neq-of_text_eq a b h e = let same : text_eq a b ≡ true = rw e (text_eq_refl b) in absurd (cc)

pub text_eq-of_neq : (a b : Text) → a ≢ b → text_eq a b ≡ false
text_eq-of_neq a b h = elim (Bool-cases (text_eq a b)) [
  | inl e ↦ absurd (h (text_eq_sound a b e))
  | inr e ↦ e
]

-- `s.padStart(width, fill)` for a fill of one character.
unfoldable pub pad_start : ℕ → ℕ → Text → Text
pad_start width fill s = replicate (width - length s) fill ++ s

pub length-pad_start :
    (width fill : ℕ) (s : Text) → length s ≤ width → length (pad_start width fill s) ≡ width
unfolding pad_start
length-pad_start width fill s h = omega (
  arith,
  length-append (replicate (width - length s) fill) s,
  length-replicate (width - length s) fill,
)

-- `values.join(separator)` on strings.
unfoldable pub join : Text → List Text → Text
join separator [] = []
join separator (s ∷ []) = s
join separator (s ∷ t ∷ rest) = s ++ separator ++ join separator (t ∷ rest)

-- The character classes of the patterns: [0-9] and [0-9a-fA-F].
unfoldable pub is_digit : ℕ → Bool
is_digit c = leb b'0' c && leb c b'9'

unfoldable pub is_hex_digit : ℕ → Bool
unfolding is_digit
is_hex_digit c = is_digit c || (leb b'a' c && leb c b'f') || (leb b'A' c && leb c b'F')

-- `[class]+` against a whole string.
unfoldable pub all_of : (ℕ → Bool) → Text → Bool
all_of p [] = true
all_of p (c ∷ s) = p c && all_of p s

unfoldable pub some_of : (ℕ → Bool) → Text → Bool
unfolding all_of
some_of p [] = false
some_of p (c ∷ s) = all_of p (c ∷ s)

-- `s.length > 64 ? s.slice(0, 64) + "…" : s`, which proof.ts and validate.ts both write.
unfoldable pub ellipsis : Text → Text
ellipsis s = if ltb 64 (length s) then take 64 s ++ 8230 ∷ [] else s

-- \s
unfoldable pub is_space : ℕ → Bool
is_space c =
    (leb 9 c && leb c 13)
    || c == 32
    || c == 160
    || c == 0x1680
    || (leb 0x2000 c && leb c 0x200a)
    || c == 0x2028
    || c == 0x2029
    || c == 0x202f
    || c == 0x205f
    || c == 0x3000
    || c == 0xfeff

unfoldable pub skip_spaces : Text → Text
skip_spaces [] = []
skip_spaces (c ∷ s) = let rest = skip_spaces s in if is_space c then rest else c ∷ s
