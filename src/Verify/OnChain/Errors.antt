-- ===== src/Verify/OnChain/Errors.antt =====
-- The functions of sdk/src/verify.ts throw nothing but the SDK's own errors.
use zksoroban.Js.Text.{Text}
use zksoroban.Types.Result.{Result}
use zksoroban.Types.Errors.{OnlyThrows}
use zksoroban.Validate.Calldata.{Calldata}
use zksoroban.Verify.Run.Laws.{IsTyped}
use zksoroban.Verify.Stellar.{Stellar}

abbrev Typed : {A : Type 0} → Result A → Type 0
Typed r = OnlyThrows IsTyped r
