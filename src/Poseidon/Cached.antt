-- ===== src/Poseidon/Cached.antt =====
-- The cache of constants of sdk/src/poseidon.ts, and calls of poseidon with it.
use zksoroban.Prelude.{ℕ, suc, ◌+◌, List, [], ◌∷◌, Option, none, some, length}
use zksoroban.Prelude.Int.{pos}
use zksoroban.Js.Value.{JsValue}
use zksoroban.Prelude.Int.{ℤ}
use zksoroban.Types.Result.{Result, ok, err, ◌>>=◌}
use zksoroban.Poseidon.{PoseidonConstants, prepare_inputs, permute}

-- `constantsCache`, and how often `parseConstants` was called.
pub record Cache : Type 0 where
  pub constants : Option PoseidonConstants
  pub reads : ℕ

-- `getConstants`, where `parsed` is what `parseConstants` returns or throws.
unfoldable pub get_constants : Result PoseidonConstants → Cache → Result PoseidonConstants × Cache
get_constants parsed cache = elim cache.constants [
  | some k ↦ (ok k, cache)
  | none ↦ elim parsed [
    | ok k ↦ (ok k, record { constants = some k; reads = suc cache.reads })
    | err t ↦ (err t, record { constants = none; reads = suc cache.reads })
  ]
]

-- A call of `poseidon` with the module's cache.
unfoldable pub poseidon_call : Result PoseidonConstants → Cache → JsValue → Result ℤ × Cache
poseidon_call parsed cache inputs = elim (prepare_inputs inputs) [
  | err t ↦ (err t, cache)
  | ok prepared ↦
      let (constants, cache') = get_constants parsed cache in
      (constants >>= (λ k. permute k (length prepared + 1) (pos 0, prepared)), cache')
]

-- One call after another.
unfoldable pub poseidon_calls :
    Result PoseidonConstants → Cache → List JsValue → List (Result ℤ) × Cache
poseidon_calls parsed cache [] = ([], cache)
poseidon_calls parsed cache (inputs ∷ rest) =
    let (result, cache') = poseidon_call parsed cache inputs in
    let (results, last) = poseidon_calls parsed cache' rest in (result ∷ results, last)
