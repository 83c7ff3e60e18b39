-- ===== src/Verify/Run/Sends.antt =====
-- How many transactions a run submits: the count, and a bound for each statement form.
use zksoroban.Prelude.{ℕ, ◌+◌, ◌≤◌, ◌≡◌, refl, List, [], ◌∷◌, ◌++◌, All, arith}
use zksoroban.Types.Result.{Result, ok, err}
use zksoroban.Verify.Run.{Call, send_transaction, Run, ◌>>=◌, continue}

module _ {Tx : Type 0} where
  abbrev pub submissions_of : Call Tx → ℕ
  submissions_of (send_transaction tx) = 1
  submissions_of _ = 0

  -- The submissions among some calls.
  abbrev pub submissions : List (Call Tx) → ℕ
  submissions [] = 0
  submissions (c ∷ cs) = submissions_of c + submissions cs

  submissions-append :
      (cs ds : List (Call Tx)) → submissions (cs ++ ds) ≡ submissions cs + submissions ds
  submissions-append [] ds = omega arith
  submissions-append (c ∷ cs) ds = let ih = submissions-append cs ds in omega arith

  pub none_of_All : (cs : List (Call Tx)) → All (λ c. submissions_of c ≡ 0) cs → submissions cs ≡ 0
  none_of_All [] h = refl
  none_of_All (c ∷ cs) (e, h) = let ih = none_of_All cs h in omega arith

  -- A run that submits at most `n` transactions.
  abbrev pub Within : ℕ → {A : Type 0} → Run Tx A → Type 0
  Within n m = submissions m.calls ≤ n

  continue-Within :
      {A B : Type 0} (i j : ℕ) (calls : List (Call Tx)) (r : Result A) (next : A → Run Tx B)
      → submissions calls ≤ i
      → ((a : A) → Within j (next a))
      → Within (i + j) (continue calls r next)
  continue-Within i j calls (err t) next h k = omega arith
  continue-Within i j calls (ok a) next h k =
      let split = submissions-append calls (next a).calls in let bound = k a in omega arith

  pub bind-Within :
      {A B : Type 0} (i j : ℕ) (m : Run Tx A) (next : A → Run Tx B)
      → Within i m
      → ((a : A) → Within j (next a))
      → Within (i + j) (m >>= next)
  bind-Within i j m next h k = continue-Within i j m.calls m.result next h k

  -- A first step that submits nothing.
  pub quiet-Within :
      {A B : Type 0} (n : ℕ) (m : Run Tx A) (next : A → Run Tx B)
      → submissions m.calls ≡ 0
      → ((a : A) → Within n (next a))
      → Within n (m >>= next)
  quiet-Within n m next h k =
      let bound : Within (0 + n) (m >>= next) = bind-Within 0 n m next (omega arith) k in
      omega arith
