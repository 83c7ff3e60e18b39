-- ===== src/Proof/Words.antt =====
-- bigintToBytes32: a number below 2^256 as 32 bytes, the most significant first.
use zksoroban.Prelude.{
  ℕ, ◌+◌, ◌-◌, ◌^◌, ◌<◌, true, ◌≡◌, ◌∙◌, arith, length, All, All-append, All-replicate, replicate,
  refl,
}
use zksoroban.Js.Text.{Text, pad_start, length-pad_start, is_hex_digit}
use zksoroban.Js.Numeral.{to_string}
use zksoroban.Js.Numeral.Laws.{spelled-to_string, spelled-pad, length-to_string, to_string-All_hex}
use zksoroban.Js.Bytes.{be_value}
use zksoroban.Js.Bytes.Laws.{length-from_hex, be_value-from_hex, from_hex-All_bytes}
use zksoroban.Proof.{bigint_to_bytes32}

abbrev padded : ℕ → Text
padded n = pad_start 64 b'0' (to_string 16 n)

padded-All_hex : (n : ℕ) → All (λ c. is_hex_digit c ≡ true) (padded n)
unfolding pad_start
padded-All_hex n =
    All-append (λ c. is_hex_digit c ≡ true) (replicate (64 - length (to_string 16 n)) b'0')
      (to_string 16 n) (All-replicate (λ c. is_hex_digit c ≡ true) _ (unfold is_hex_digit in refl))
      (to_string-All_hex n)

length-padded : (n : ℕ) → n < 2 ^ 256 → length (padded n) ≡ 32 + 32
length-padded n h =
    length-pad_start 64 b'0' (to_string 16 n)
      (length-to_string 16 n 64 (omega arith) (omega arith) h (omega arith))

-- The word has 32 bytes.
pub length-bigint_to_bytes32 : (n : ℕ) → n < 2 ^ 256 → length (bigint_to_bytes32 n) ≡ 32
unfolding bigint_to_bytes32
length-bigint_to_bytes32 n h = length-from_hex 32 (padded n) (padded-All_hex n) (length-padded n h)

-- Read as a big-endian number the word gives the number back.
pub be_value-bigint_to_bytes32 : (n : ℕ) → n < 2 ^ 256 → be_value 0 (bigint_to_bytes32 n) ≡ n
unfolding bigint_to_bytes32 pad_start
be_value-bigint_to_bytes32 n h =
    be_value-from_hex 32 0 (padded n) (padded-All_hex n) (length-padded n h)
    ∙ spelled-pad 16 (64 - length (to_string 16 n)) (to_string 16 n)
    ∙ spelled-to_string 16 (omega arith) (omega arith) n

pub bigint_to_bytes32-All_bytes : (n : ℕ) → n < 2 ^ 256 → All (λ b. b < 256) (bigint_to_bytes32 n)
unfolding bigint_to_bytes32
bigint_to_bytes32-All_bytes n h =
    from_hex-All_bytes 32 (padded n) (padded-All_hex n) (length-padded n h)
