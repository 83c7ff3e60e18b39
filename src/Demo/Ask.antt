-- ===== src/Demo/Ask.antt =====
-- The questions of demo/src/run.ts.
use zksoroban.Prelude.{
  ℕ, Bool, true, false, ◌&&◌, ◌||◌, List, [], ◌∷◌, ◌++◌, Option, none, some, if◌then◌else◌, length,
  ◌==◌, leb, all, not,
}
use zksoroban.Js.Text.{Text, text, text_eq, some_of, is_digit}
use zksoroban.Js.Bytes.{Bytes}
use zksoroban.Js.BigInt.{trim, to_bigint}
use zksoroban.Types.{Thrown}
use zksoroban.Types.Result.{Result, ok, err}
use zksoroban.Prelude.Int.{ℤ}
use zksoroban.Golden.{has_text}
use zksoroban.Demo.{NetworkEntry, networks, is_network, random_secret}

-- How a dialogue ends on the lines that are typed: it waits for more, throws, or has an answer.
pub data Ended (A : Type 0) : Type 0 where
  waiting : Ended A
  threw : Thrown → Ended A
  answered : A → (rest : List Text) → Ended A

-- A dialogue: what it shows and how it ends, from the lines that are typed.
pub record Dialogue (A : Type 0) : Type 0 where
  pub shown : List Text
  pub ended : Ended A

abbrev pub Asks : Type 0 → Type 0
Asks A = List Text → Dialogue A

abbrev pub go_on : {A B : Type 0} → List Text → Ended A → (A → Asks B) → Dialogue B
go_on shown waiting next = record { shown = shown; ended = waiting }
go_on shown (threw t) next = record { shown = shown; ended = threw t }
go_on shown (answered a rest) next = record {
  shown = shown ++ (next a rest).shown;
  ended = (next a rest).ended;
}

infixl 5 ◌>>=◌
abbrev pub ◌>>=◌ : {A B : Type 0} → Asks A → (A → Asks B) → Asks B
(m >>= next) lines = go_on (m lines).shown (m lines).ended next

abbrev pub lift : {A : Type 0} → Result A → Asks A
lift (ok a) lines = record { shown = []; ended = answered a lines }
lift (err t) lines = record { shown = []; ended = threw t }

abbrev pub value_of : Option Text → Text → Text
value_of none trimmed = trimmed
value_of (some default) [] = default
value_of (some default) (c ∷ s) = c ∷ s

-- The value that a line stands for, with the default for an empty one.
unfoldable pub answer_of : Option Text → Text → Text
answer_of default input = value_of default (trim input)

-- `if (error)`: an absent and an empty error are none.
abbrev pub is_error : Option Text → Bool
is_error none = false
is_error (some []) = false
is_error (some (c ∷ s)) = true

abbrev pub prompt_of : Text → Option Text → Text
prompt_of label none = label ++ text ": "
prompt_of label (some default) = label ++ text " [" ++ default ++ text "]: "

abbrev pub error_line : Option Text → Text
error_line none = []
error_line (some e) = text "  " ++ e

unfoldable pub ask : Text → Option Text → (Text → Option Text) → Asks Text
ask label default validate [] = record { shown = prompt_of label default ∷ []; ended = waiting }
ask label default validate (input ∷ lines) =
    let value = answer_of default input in
    let again = ask label default validate lines in
    if is_error (validate value)
    then record {
      shown = prompt_of label default ∷ error_line (validate value) ∷ again.shown;
      ended = again.ended;
    }
    else record { shown = prompt_of label default ∷ []; ended = answered value lines }

unfoldable pub check_secret : Text → Option Text
check_secret value =
    if text_eq value []
    then some (text "Secret cannot be empty.")
    else if text_eq value (text "random")
    then none
    else if not (some_of is_digit value)
    then some (text "Secret must be a decimal number or 'random'.")
    else none

unfoldable pub check_network : (to_lower : Text → Text) → Text → Option Text
check_network to_lower value =
    if not (is_network (networks (to_lower value)))
    then some (text "Unknown network. Choose 'testnet' or 'mainnet'.")
    else none

-- [A-Z2-7]
abbrev pub is_base32 : ℕ → Bool
is_base32 c = (leb b'A' c && leb c b'Z') || (leb b'2' c && leb c b'7')

-- /^C[A-Z2-7]{55}$/
unfoldable pub is_contract_id : Text → Bool
is_contract_id [] = false
is_contract_id (c ∷ s) = c == b'C' && length s == 55 && all is_base32 s

unfoldable pub check_contract : Text → Option Text
check_contract value =
    if not (is_contract_id value)
    then some (
        text
          "Invalid contract address. Expected a 56-character Soroban contract ID starting with 'C'.")
    else none

abbrev pub levels : List Text
levels = text "quiet" ∷ text "normal" ∷ text "verbose" ∷ []

unfoldable pub check_verbosity : (to_lower : Text → Text) → Text → Option Text
check_verbosity to_lower value =
    if not (has_text levels (to_lower value))
    then some (text "Choose 'quiet', 'normal', or 'verbose'.")
    else none

pub record Answers : Type 0 where
  pub secret : ℤ
  pub network : Text
  pub rpc_url : NetworkEntry
  pub contract_id : Text
  pub verbosity : Text

abbrev pub testnet_registry_contract_id : Text
testnet_registry_contract_id = text "CDTPNARKKZCZ36PL4BNKBXZTT2BLVR373S2K5NCFAOKCPPY62ESRHSXH"

-- `secretRaw === "random" ? randomSecret() : BigInt(secretRaw)`
unfoldable pub secret_of : Bytes → Text → Result ℤ
secret_of random_bytes raw =
    if text_eq raw (text "random") then random_secret random_bytes else to_bigint raw

-- `to_lower` is `toLowerCase`, and `random_bytes` what `randomBytes(31)` returns.
unfoldable pub collect_answers : (to_lower : Text → Text) → (random_bytes : Bytes) → Asks Answers
collect_answers to_lower random_bytes = do
  secret_raw ← ask (text "Secret value (decimal, or 'random')") none check_secret
  network ← ask (text "Network (testnet/mainnet)") (some (text "testnet")) (check_network to_lower)
  contract_id ←
      ask (text "Registry contract address") (some testnet_registry_contract_id) check_contract
  verbosity ←
      ask (text "Verbosity (quiet/normal/verbose)") (some (text "normal"))
        (check_verbosity to_lower)
  secret ← lift (secret_of random_bytes secret_raw)
  lift (
      ok (record {
        secret = secret;
        network = to_lower network;
        rpc_url = networks (to_lower network);
        contract_id = contract_id;
        verbosity = to_lower verbosity;
      }))
