-- ===== src/Verify/Run/Laws.antt =====
-- Rules for runs: which calls are made, which errors come out, what a returned value went through.
use zksoroban.Prelude.{◌≡◌, refl, true, List, some, All, All-append, if◌then◌else◌}
use zksoroban.Types.{Thrown, native_error, SorobanZkErrorCode, code, is_soroban_zk_error}
use zksoroban.Types.Result.{Result, ok, err}
use zksoroban.Types.Errors.{OnlyThrows, returns, throws, thrown_of_err}
use zksoroban.Verify.Classify.{classify_error}
use zksoroban.Verify.Run.{Call, Run, ◌>>=◌, continue, rethrow}

module _ {Tx : Type 0} (P : Call Tx → Type 0) where
  -- Every call of a run satisfies `P`.
  abbrev pub Calls : {A : Type 0} → Run Tx A → Type 0
  Calls m = All P m.calls

  continue-Calls :
      {A B : Type 0} (calls : List (Call Tx)) (r : Result A) (next : A → Run Tx B)
      → All P calls
      → ((a : A) → r ≡ ok a → Calls (next a))
      → Calls (continue calls r next)
  continue-Calls calls (err t) next h k = h
  continue-Calls calls (ok a) next h k = All-append P calls (next a).calls h (k a refl)

  pub bind-Calls :
      {A B : Type 0} (m : Run Tx A) (next : A → Run Tx B)
      → Calls m
      → ((a : A) → m.result ≡ ok a → Calls (next a))
      → Calls (m >>= next)
  bind-Calls m next h k = continue-Calls m.calls m.result next h k

-- An exception of the SDK's own classes.
abbrev pub IsTyped : Thrown → Type 0
IsTyped t = is_soroban_zk_error t ≡ true

pub IsTyped-of_code : (t : Thrown) {c : SorobanZkErrorCode} → code t ≡ some c → IsTyped t
IsTyped-of_code (native_error m) h = absurd (cc)
IsTyped-of_code _ h = refl

-- A run whose value, if it returns one, satisfies `Q`.
abbrev pub Returns : {A : Type 0} → (A → Type 0) → Result A → Type 0
Returns {A} Q r = (a : A) → r ≡ ok a → Q a

continue-Returns :
    {Tx A B : Type 0} {Q : B → Type 0} (calls : List (Call Tx)) (r : Result A) (next : A → Run Tx B)
    → ((a : A) → r ≡ ok a → Returns Q (next a).result)
    → Returns Q (continue calls r next).result
continue-Returns calls (err t) next k b h = absurd (cc)
continue-Returns calls (ok a) next k b h = k a refl b h

pub bind-Returns :
    {Tx A B : Type 0} {Q : B → Type 0} (m : Run Tx A) (next : A → Run Tx B)
    → ((a : A) → m.result ≡ ok a → Returns Q (next a).result)
    → Returns Q (m >>= next).result
bind-Returns m next k = continue-Returns m.calls m.result next k

pub rethrow-ok : {A : Type 0} (r : Result A) {a : A} → rethrow r ≡ ok a → r ≡ ok a
rethrow-ok (ok b) h = h
rethrow-ok (err t) h = absurd (cc)

catch-IsTyped : (t : Thrown) → IsTyped (if is_soroban_zk_error t then t else classify_error t)
unfolding classify_error
catch-IsTyped (native_error m) = refl
catch-IsTyped _ = refl

-- What passes the catch of the functions is typed.
pub rethrow_throws : {A : Type 0} (r : Result A) → OnlyThrows IsTyped (rethrow r)
rethrow_throws (ok a) = returns
rethrow_throws (err t) = throws (catch-IsTyped t)

continue_throws :
    {P : Thrown → Type 0} {Tx A B : Type 0} (calls : List (Call Tx)) (r : Result A)
    (next : A → Run Tx B)
    → OnlyThrows P r
    → ((a : A) → OnlyThrows P (next a).result)
    → OnlyThrows P (continue calls r next).result
continue_throws calls (err t) next h k = throws (thrown_of_err h refl)
continue_throws calls (ok a) next h k = k a

pub bind_run_throws :
    {P : Thrown → Type 0} {Tx A B : Type 0} (m : Run Tx A) (next : A → Run Tx B)
    → OnlyThrows P m.result
    → ((a : A) → OnlyThrows P (next a).result)
    → OnlyThrows P (m >>= next).result
bind_run_throws m next h k = continue_throws m.calls m.result next h k
