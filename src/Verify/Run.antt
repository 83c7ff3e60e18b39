-- ===== src/Verify/Run.antt =====
-- An async function as the calls that it makes, in order, and its result.
pub mod Laws
pub mod Sends
use zksoroban.Prelude.{Bool, true, false, List, [], ◌∷◌, ◌++◌, ◌≡◌, refl, Option, none, some}
use zksoroban.Prelude.{ℕ, if◌then◌else◌}
use zksoroban.Js.Text.{Text}
use zksoroban.Types.{Thrown, is_soroban_zk_error}
use zksoroban.Types.Result.{Result, ok, err}
use zksoroban.Verify.Classify.{classify_error}

-- A method of `rpc.Server`, with the transaction that it is given, a wait with `setTimeout`, or a
-- line for the console.
pub data Call (Tx : Type 0) : Type 0 where
  get_network : Call Tx
  get_account : (key : Text) → Call Tx
  prepare_transaction : Tx → Call Tx
  send_transaction : Tx → Call Tx
  get_transaction : (hash : Text) → Call Tx
  wait : (ms : ℕ) → Call Tx
  simulate_transaction : Tx → Call Tx
  warn : (message : Text) → Call Tx
  print : (line : Text) → Call Tx

pub record Run (Tx A : Type 0) : Type 0 where
  pub calls : List (Call Tx)
  pub result : Result A

-- `try { … } catch (error) { if (error instanceof SorobanZkError) throw error; throw
-- classifyError(error); }`
abbrev pub rethrow : {A : Type 0} → Result A → Result A
rethrow (ok a) = ok a
rethrow (err t) = err (if is_soroban_zk_error t then t else classify_error t)

module _ {Tx : Type 0} where
  -- What a run goes on to after a result.
  abbrev pub continue : {A B : Type 0} → List (Call Tx) → Result A → (A → Run Tx B) → Run Tx B
  continue calls (err t) next = record { calls = calls; result = err t }
  continue calls (ok a) next = record { calls = calls ++ (next a).calls; result = (next a).result }

  infixl 5 ◌>>=◌ ◌>>◌
  abbrev pub ◌>>=◌ : {A B : Type 0} → Run Tx A → (A → Run Tx B) → Run Tx B
  m >>= next = continue m.calls m.result next

  abbrev pub ◌>>◌ : {B : Type 0} → Run Tx (Unit {0}) → Run Tx B → Run Tx B
  m >> next = m >>= λ done. next

  -- Code that makes no call.
  abbrev pub lift : {A : Type 0} → Result A → Run Tx A
  lift r = record { calls = []; result = r }

  -- `await server.method(…)`, with the server's answer.
  abbrev pub await : {A : Type 0} → Call Tx → Result A → Run Tx A
  await c r = record { calls = c ∷ []; result = r }

  abbrev pub try_classify : {A : Type 0} → Run Tx A → Run Tx A
  try_classify m = record { calls = m.calls; result = rethrow m.result }

  -- `try { a = await m; } catch { a = other; }`
  abbrev pub try_or : {A : Type 0} → Run Tx A → Result A → Run Tx A
  try_or m other = record {
    calls = m.calls;
    result = elim m.result [ ok a ↦ ok a | err t ↦ other ];
  }
