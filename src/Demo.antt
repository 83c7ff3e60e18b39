-- ===== src/Demo.antt =====
-- demo/src: the programs that call the SDK, and what they share.
pub mod Ask
pub mod Answers
pub mod Main
pub mod Fee
pub mod Batch
pub mod Rejected
pub mod Submissions
use zksoroban.Prelude.{
  ℕ, Bool, true, false, List, [], ◌∷◌, ◌++◌, Option, none, some, if◌then◌else◌, map,
}
use zksoroban.Js.Text.{Text, text, text_eq}
use zksoroban.Js.Bytes.{Bytes, to_hex}
use zksoroban.Js.BigInt.{to_bigint}
use zksoroban.Types.{SorobanZkErrorCode}
use zksoroban.Types.Result.{Result, ok}
use zksoroban.Prelude.Int.{ℤ}
use zksoroban.Golden.{has_text}
use zksoroban.Verify.Run.{Run, await, print}

-- `NETWORKS[name]`: a URL, a member that every object inherits, or undefined.
pub data NetworkEntry : Type 0 where
  url : Text → NetworkEntry
  inherited : NetworkEntry
  missing : NetworkEntry

-- The names of the members of `Object.prototype`.
abbrev pub inherited_names : List Text
inherited_names =
    text "constructor"
    ∷ text "__proto__"
    ∷ text "hasOwnProperty"
    ∷ text "isPrototypeOf"
    ∷ text "propertyIsEnumerable"
    ∷ text "toLocaleString"
    ∷ text "toString"
    ∷ text "valueOf"
    ∷ text "__defineGetter__"
    ∷ text "__defineSetter__"
    ∷ text "__lookupGetter__"
    ∷ text "__lookupSetter__"
    ∷ []

unfoldable pub networks : Text → NetworkEntry
networks name =
    if text_eq name (text "testnet")
    then url (text "https://soroban-testnet.stellar.org")
    else if text_eq name (text "mainnet")
    then url (text "https://mainnet.sorobanrpc.com")
    else if has_text inherited_names name
    then inherited
    else missing

-- `Boolean(NETWORKS[name])`
abbrev pub is_network : NetworkEntry → Bool
is_network missing = false
is_network _ = true

-- `randomSecret()` for the 31 bytes that `randomBytes` returns.
unfoldable pub random_secret : Bytes → Result ℤ
random_secret bytes = to_bigint (text "0x" ++ to_hex bytes)

-- `console.log(line)`
unfoldable pub log_line : {Tx : Type 0} → Text → Run Tx (Unit {0})
log_line line = await (print line) (ok tt)

-- The string of an error code.
unfoldable pub code_text : SorobanZkErrorCode → Text
code_text SorobanZkErrorCode.invalid_proof_format = text "INVALID_PROOF_FORMAT"
code_text SorobanZkErrorCode.invalid_public_input = text "INVALID_PUBLIC_INPUT"
code_text SorobanZkErrorCode.contract_invocation_failed = text "CONTRACT_INVOCATION_FAILED"
code_text SorobanZkErrorCode.transaction_rejected = text "TRANSACTION_REJECTED"
code_text SorobanZkErrorCode.network_error = text "NETWORK_ERROR"
code_text SorobanZkErrorCode.resource_limit_exceeded = text "RESOURCE_LIMIT_EXCEEDED"
code_text SorobanZkErrorCode.network_mismatch = text "NETWORK_MISMATCH"
code_text SorobanZkErrorCode.contract_not_initialized = text "CONTRACT_NOT_INITIALIZED"
code_text SorobanZkErrorCode.rate_limit_exceeded = text "RATE_LIMIT_EXCEEDED"
code_text SorobanZkErrorCode.invalid_window_size = text "INVALID_WINDOW_SIZE"
code_text SorobanZkErrorCode.proof_expired = text "PROOF_EXPIRED"
code_text SorobanZkErrorCode.caller_not_allowed = text "CALLER_NOT_ALLOWED"
code_text SorobanZkErrorCode.proof_generation_failed = text "PROOF_GENERATION_FAILED"
