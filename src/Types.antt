-- ===== src/Types.antt =====
-- sdk/src/types.ts: the error codes, the error classes, and the plain records of the SDK. What a
-- `throw` carries is `Thrown`, and code that may throw returns a `Result`.
pub mod Result
pub mod Errors
pub mod Yields
use zksoroban.Prelude.{ℕ, Bool, true, false, Option, none, some, List, [], ◌∷◌, ◌++◌}
use zksoroban.Js.Text.{Text, text}
use zksoroban.Js.Bytes.{Bytes}

pub data SorobanZkErrorCode : Type 0 where
  invalid_proof_format invalid_public_input contract_invocation_failed : SorobanZkErrorCode
  transaction_rejected network_error resource_limit_exceeded network_mismatch : SorobanZkErrorCode
  contract_not_initialized rate_limit_exceeded invalid_window_size : SorobanZkErrorCode
  proof_expired caller_not_allowed proof_generation_failed : SorobanZkErrorCode

-- `SorobanZkError` and its two subclasses, and any other Error by its message.
pub data Thrown : Type 0 where
  soroban_zk_error : (message : Text) (code : SorobanZkErrorCode) → Thrown
  zk_input_error : (field reason : Text) (code : SorobanZkErrorCode) (detail : Option Text) → Thrown
  network_mismatch_error : (expected actual : Text) → Thrown
  native_error : (message : Text) → Thrown

-- `detail ? ` (${detail})` : ""`: an absent and an empty detail add nothing.
unfoldable pub detail_suffix : Option Text → Text
unfolding text
detail_suffix none = []
detail_suffix (some []) = []
detail_suffix (some (c ∷ s)) = text " (" ++ (c ∷ s) ++ text ")"

-- `error.message`, as the constructors build it.
unfoldable pub message : Thrown → Text
unfolding text detail_suffix
message (soroban_zk_error m code) = m
message (zk_input_error field reason code detail) =
    field ++ text " " ++ reason ++ detail_suffix detail
message (network_mismatch_error expected actual) =
    text "ProofBundle targets network \""
    ++ expected
    ++ text "\" but the configured network is \""
    ++ actual
    ++ text "\""
message (native_error m) = m

-- `error.code`; an Error of another class has none.
abbrev pub code : Thrown → Option SorobanZkErrorCode
code (soroban_zk_error m c) = some c
code (zk_input_error f r c d) = some c
code (network_mismatch_error e a) = some SorobanZkErrorCode.network_mismatch
code (native_error m) = none

-- `error instanceof SorobanZkError`, `error instanceof ZkInputError`.
abbrev pub is_soroban_zk_error : Thrown → Bool
is_soroban_zk_error (native_error m) = false
is_soroban_zk_error _ = true

abbrev pub is_zk_input_error : Thrown → Bool
is_zk_input_error (zk_input_error f r c d) = true
is_zk_input_error _ = false

pub record SorobanProofCalldata : Type 0 where
  pub proof_a : Bytes
  pub proof_b : Bytes
  pub proof_c : Bytes
  pub public_inputs : List Bytes

pub record RegistryVerifyingKey : Type 0 where
  pub alpha : Bytes
  pub beta : Bytes
  pub gamma : Bytes
  pub delta : Bytes
  pub ic : List Bytes
