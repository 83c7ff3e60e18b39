-- ===== src/Js/Bytes/Laws.antt =====
-- Reading hex digits into bytes keeps the number that they spell.
use zksoroban.Prelude.{
  ℕ, zero, suc, ◌+◌, ◌*◌, ◌<◌, true, [], ◌∷◌, ◌≡◌, refl, ap, ◌∙◌, arith, length, All,
}
use zksoroban.Js.Text.{Text, is_hex_digit}
use zksoroban.Js.Numeral.{digit_value, spelled}
use zksoroban.Js.Bytes.{from_hex, be_value}

abbrev AllHex : Text → Type 0
AllHex = All (λ c. is_hex_digit c ≡ true)

digit_value-lt : (c : ℕ) → is_hex_digit c ≡ true → digit_value c < 16
unfolding digit_value is_hex_digit
digit_value-lt c h = ground arith

from_hex_step :
    (a b : ℕ) (s : Text)
    → is_hex_digit a ≡ true
    → is_hex_digit b ≡ true
    → from_hex (a ∷ b ∷ s) ≡ (digit_value a * 16 + digit_value b) ∷ from_hex s
unfolding from_hex
from_hex_step a b s p q = rw (p, q)

pub length-from_hex : (k : ℕ) (s : Text) → AllHex s → length s ≡ k + k → length (from_hex s) ≡ k
length-from_hex zero [] h e = unfold from_hex in refl
length-from_hex (suc k) (a ∷ b ∷ s) (p, (q, h)) e =
    rw (from_hex_step a b s p q) (ap suc (length-from_hex k s h (omega arith)))
length-from_hex _ _ h e = absurd (omega arith)

pub be_value-from_hex :
    (k acc : ℕ) (s : Text)
    → AllHex s
    → length s ≡ k + k
    → be_value acc (from_hex s) ≡ spelled 16 acc s
unfolding be_value spelled
be_value-from_hex zero acc [] h e = unfold from_hex in refl
be_value-from_hex (suc k) acc (a ∷ b ∷ s) (p, (q, h)) e = rw (from_hex_step a b s p q) (
    be_value-from_hex k (acc * 256 + (digit_value a * 16 + digit_value b)) s h (omega arith)
    ∙ ap (λ m. spelled 16 m s) (omega arith))
be_value-from_hex _ acc _ h e = absurd (omega arith)

pub from_hex-All_bytes :
    (k : ℕ) (s : Text) → AllHex s → length s ≡ k + k → All (λ b. b < 256) (from_hex s)
from_hex-All_bytes zero [] h e = unfold from_hex in tt
from_hex-All_bytes (suc k) (a ∷ b ∷ s) (p, (q, h)) e =
    rw (from_hex_step a b s p q) (
      omega (arith, digit_value-lt a p, digit_value-lt b q),
      from_hex-All_bytes k s h (omega arith),
    )
from_hex-All_bytes _ _ h e = absurd (omega arith)
