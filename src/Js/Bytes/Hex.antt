-- ===== src/Js/Bytes/Hex.antt =====
-- `b.toString("hex")` spells the number of the bytes, and `BigInt` reads it behind 0x.
use zksoroban.Prelude.{
  ℕ, suc, ◌+◌, ◌*◌, ◌/◌, ◌%◌, ◌^◌, ◌<◌, ◌≤◌, ◌≡◌, refl, ap, ◌∙◌, true, false, [], ◌∷◌, some, arith,
  length, All, and_parts, div_mul_mod, mod-lt_base,
}
use native.Mathlib.Nat.{pow-suc, pow-zero, mul-le-mul_right, mul_assoc}
use zksoroban.Prelude.Int.{pos}
use zksoroban.Js.Text.{Text, is_hex_digit, is_digit, is_space, all_of, some_of, skip_spaces}
use zksoroban.Js.Numeral.{spelled}
use zksoroban.Js.Numeral.Laws.{digit_value-digit_char, digit_char-is_hex_digit}
use zksoroban.Js.Bytes.{Bytes, to_hex, be_value, from_hex}
use zksoroban.Js.BigInt.{trim, trim_end, to_bigint, literal_value, unsigned_value, prefixed_value}
use zksoroban.Types.Result.{ok}

abbrev pub AllBytes : Bytes → Type 0
AllBytes = All (λ b. b < 256)

high_digit : (b : ℕ) → b < 256 → b / 16 < 16
high_digit b h = omega (arith, div_mul_mod b 16)

pub spelled-to_hex :
    (acc : ℕ) (bytes : Bytes) → AllBytes bytes → spelled 16 acc (to_hex bytes) ≡ be_value acc bytes
unfolding spelled to_hex be_value
spelled-to_hex acc [] h = refl
spelled-to_hex acc (b ∷ bytes) (small, h) =
    ap (λ m. spelled 16 m (to_hex bytes))
      (omega (
        arith,
        digit_value-digit_char (b / 16) (high_digit b small),
        digit_value-digit_char (b % 16) (mod-lt_base b 16 (omega arith)),
        div_mul_mod b 16,
      ))
    ∙ spelled-to_hex (acc * 256 + b) bytes h

pub to_hex-hex : (bytes : Bytes) → AllBytes bytes → all_of is_hex_digit (to_hex bytes) ≡ true
unfolding to_hex all_of
to_hex-hex [] h = refl
to_hex-hex (b ∷ bytes) (small, h) =
    rw
      (
        digit_char-is_hex_digit (b / 16) (high_digit b small),
        digit_char-is_hex_digit (b % 16) (mod-lt_base b 16 (omega arith)),
        to_hex-hex bytes h,
      )
      refl

pub from_hex-to_hex : (bytes : Bytes) → AllBytes bytes → from_hex (to_hex bytes) ≡ bytes
unfolding to_hex from_hex
from_hex-to_hex [] h = refl
from_hex-to_hex (b ∷ bytes) (small, h) =
    rw
      (
        digit_char-is_hex_digit (b / 16) (high_digit b small),
        digit_char-is_hex_digit (b % 16) (mod-lt_base b 16 (omega arith)),
        from_hex-to_hex bytes h,
        digit_value-digit_char (b / 16) (high_digit b small),
        digit_value-digit_char (b % 16) (mod-lt_base b 16 (omega arith)),
      )
      (ap (λ c. c ∷ bytes) (div_mul_mod b 16))

hex_space : (c : ℕ) → is_hex_digit c ≡ true → is_space c ≡ false
unfolding is_hex_digit is_digit is_space
hex_space c h = ground arith

trim_end-hex : (s : Text) → all_of is_hex_digit s ≡ true → trim_end s ≡ s
unfolding trim_end all_of
trim_end-hex [] h = refl
trim_end-hex (c ∷ s) h =
    let (d, rest) = and_parts (is_hex_digit c) (all_of is_hex_digit s) h in
    rw (hex_space c d, trim_end-hex s rest) refl

trim-prefixed : (s : Text) → all_of is_hex_digit s ≡ true → trim (b'0' ∷ b'x' ∷ s) ≡ b'0' ∷ b'x' ∷ s
unfolding trim skip_spaces trim_end is_space all_of
trim-prefixed s h = rw (trim_end-hex s h) refl

literal-prefixed :
    (c : ℕ) (s : Text)
    → all_of is_hex_digit (c ∷ s) ≡ true
    → literal_value (b'0' ∷ b'x' ∷ c ∷ s) ≡ some (pos (spelled 16 0 (c ∷ s)))
unfolding literal_value unsigned_value prefixed_value some_of all_of spelled
literal-prefixed c s h = rw h refl

-- Hex digits behind 0x are the number that they spell.
pub to_bigint-hex :
    (c : ℕ) (s : Text)
    → all_of is_hex_digit (c ∷ s) ≡ true
    → to_bigint (b'0' ∷ b'x' ∷ c ∷ s) ≡ ok (pos (spelled 16 0 (c ∷ s)))
unfolding to_bigint spelled
to_bigint-hex c s h = rw (to_bigint, trim-prefixed (c ∷ s) h, literal-prefixed c s h) refl

pub be_value-bound :
    (acc : ℕ) (bytes : Bytes) → AllBytes bytes → be_value acc bytes < (acc + 1) * 256 ^ length bytes
unfolding be_value
be_value-bound acc [] h = omega (arith, pow-zero 256)
be_value-bound acc (b ∷ bytes) (small, h) =
    let room : (acc * 256 + b + 1) * 256 ^ length bytes ≤ ((acc + 1) * 256) * 256 ^ length bytes =
      mul-le-mul_right (256 ^ length bytes) (omega arith) in
    let same : ((acc + 1) * 256) * 256 ^ length bytes ≡ (acc + 1) * 256 ^ suc (length bytes) =
      mul_assoc (acc + 1) 256 (256 ^ length bytes)
      ∙ ap (λ m. (acc + 1) * m) (omega (arith, pow-suc 256 (length bytes))) in
    omega (arith, be_value-bound (acc * 256 + b) bytes h, room, same)
