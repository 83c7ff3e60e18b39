-- ===== src/Proof/Errors.antt =====
-- The exceptions of formatProof, each with the code of the argument that it blames.
use zksoroban.Prelude.{◌≡◌, ◌⊎◌, true, some}
use zksoroban.Js.Text.{Text}
use zksoroban.Types.{
  Thrown, code, invalid_proof_format, invalid_public_input, SorobanZkErrorCode, is_zk_input_error,
}
use zksoroban.Types.Result.{Result}

-- A ZkInputError with the code `c`.
abbrev pub Blames : SorobanZkErrorCode → Thrown → Type 0
Blames c t = (is_zk_input_error t ≡ true) × (code t ≡ some c)

abbrev BlamesProof : Thrown → Type 0
BlamesProof = Blames invalid_proof_format

abbrev BlamesInputs : Thrown → Type 0
BlamesInputs = Blames invalid_public_input

-- A ZkInputError that blames the proof or the public signals.
abbrev pub BlamesArgument : Thrown → Type 0
BlamesArgument t = BlamesProof t ⊎ BlamesInputs t
