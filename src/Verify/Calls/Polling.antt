-- ===== src/Verify/Calls/Polling.antt =====
-- The loop that waits for a transaction: that it ends, how often it asks, and what it calls.
use zksoroban.Prelude.{
  ℕ, zero, suc, ◌+◌, ◌-◌, ◌*◌, ◌≤◌, ◌<◌, ◌≡◌, refl, Bool, true, false, arith, ltb, List, [], ◌∷◌,
  ◌++◌, Bool-cases, inl, inr,
}
use zksoroban.Js.Text.{Text, text}
use zksoroban.Js.Numeral.{to_string}
use zksoroban.Types.{Thrown, soroban_zk_error, transaction_rejected}
use zksoroban.Types.Result.{Result, ok, err}
use zksoroban.Verify.Run.{Run, ◌>>=◌, lift, await, get_transaction, wait, Call}
use zksoroban.Verify.Run.Laws.{Calls}
use zksoroban.Verify.Stellar.{Stellar, TxReply, not_found, failed, confirmed}
use zksoroban.Verify.Calls.{poll, settle_reply, default_timeout_ms, timed_out, KeepsTime}

module _ (s : Stellar) {Payload A : Type 0} (clock : ℕ → ℕ → ℕ)
    (polled : ℕ → Result (TxReply Payload)) (settle : Payload → Result A) (hash : Text) where
  open s use {Tx}

  -- The `while` loop of the source, with no fuel: it ends where the time is up, where the answer is
  -- an error, FAILED or a success, and behind NOT_FOUND it waits and goes on.
  pub data Loops : ℕ → ℕ → Run Tx A → Type 0 where
    late : {i w : ℕ} → 30_000 ≤ clock w (suc i) - clock 0 0 → Loops i w (lift timed_out)
    throws :
        {i w : ℕ}
        → clock w (suc i) - clock 0 0 < 30_000
        → (t : Thrown) → polled i ≡ err t
        → Loops i w (record { calls = get_transaction hash ∷ []; result = err t })
    rejects :
        {i w : ℕ}
        → clock w (suc i) - clock 0 0 < 30_000
        → (tx_hash : Text) (ledger : ℕ) → polled i ≡ ok (failed tx_hash ledger)
        → Loops i w (record {
          calls = get_transaction hash ∷ [];
          result = err (
              soroban_zk_error
                (text "Transaction " ++ tx_hash ++ text " failed on ledger " ++ to_string 10 ledger)
                transaction_rejected);
        })
    settles :
        {i w : ℕ}
        → clock w (suc i) - clock 0 0 < 30_000
        → (payload : Payload) → polled i ≡ ok (confirmed payload)
        → Loops i w (record { calls = get_transaction hash ∷ []; result = settle payload })
    again :
        {i w : ℕ} {rest : Run Tx A}
        → clock w (suc i) - clock 0 0 < 30_000
        → polled i ≡ ok not_found
        → Loops (suc i) (w + 1000) rest
        → Loops i w
            (record { calls = get_transaction hash ∷ wait 1000 ∷ rest.calls; result = rest.result })

  round-Loops :
      (i w : ℕ) (answer : Result (TxReply Payload)) (next : ℕ → Run Tx A)
      → clock w (suc i) - clock 0 0 < 30_000
      → polled i ≡ answer
      → Loops (suc i) (w + 1000) (next (w + 1000))
      → Loops i w (
          await (get_transaction hash) answer >>= λ reply.
          settle_reply s clock polled settle hash reply w next)
  unfolding settle_reply
  round-Loops i w (err t) next early e h = throws early t e
  round-Loops i w (ok not_found) next early e h = again early e h
  round-Loops i w (ok (failed t l)) next early e h = rejects early t l e
  round-Loops i w (ok (confirmed p)) next early e h = settles early p e

  Loops-from :
      (fuel i w : ℕ)
      → KeepsTime clock
      → clock 0 0 + w ≤ clock w (suc i)
      → 30_000 ≤ w + fuel * 1000
      → Loops i w (poll s clock polled settle hash fuel i w)
  unfolding poll
  Loops-from zero i w keeps started enough = late (omega arith)
  Loops-from (suc fuel) i w keeps started enough =
      elim (Bool-cases (ltb (clock w (suc i) - clock 0 0) default_timeout_ms)) [
        | inl early ↦
            let next = keeps w (suc i) 1000 in
            rw (early, poll)
              (round-Loops i w (polled i) (poll s clock polled settle hash fuel (suc i))
                (ground arith) refl
                (Loops-from fuel (suc i) (w + 1000) keeps (omega arith) (omega arith)))
        | inr over ↦ rw (over, poll) (late (ground arith))
      ]

  -- Where the clock keeps time, the loop ends by itself: the run with the fuel that the program's
  -- model gives it is the run of the loop without fuel, which asks, waits a second behind
  -- NOT_FOUND, tests the clock before each round, and ends with a time-out, an error, or the
  -- first other answer.
  pub poll-Loops : KeepsTime clock → Loops 0 0 (poll s clock polled settle hash 30_000 0 0)
  poll-Loops keeps =
      let first = keeps 0 0 0 in Loops-from 30_000 0 0 keeps (omega arith) (omega arith)

  -- How often getTransaction is asked.
  abbrev pub asked : List (Call Tx) → ℕ
  asked [] = 0
  asked (get_transaction h ∷ cs) = suc (asked cs)
  asked (_ ∷ cs) = asked cs

  loop_calls :
      {i w : ℕ} {m : Run Tx A}
      → KeepsTime clock
      → clock 0 0 + i * 1000 ≤ clock w (suc i)
      → Loops i w m
      → asked m.calls ≤ 30 - i
  loop_calls keeps started (late h) = omega arith
  loop_calls keeps started (throws h t e) = omega arith
  loop_calls keeps started (rejects h t l e) = omega arith
  loop_calls keeps started (settles h p e) = omega arith
  loop_calls {i} {w} keeps started (again h e rest) =
      let next = keeps w (suc i) 1000 in
      let bound = loop_calls keeps (omega arith) rest in omega arith

  -- Where the clock keeps time, the loop asks for the transaction at most 30 times.
  pub poll_calls : KeepsTime clock → asked (poll s clock polled settle hash 30_000 0 0).calls ≤ 30
  poll_calls keeps = let first = keeps 0 0 0 in loop_calls keeps (omega arith) (poll-Loops keeps)

  round_all :
      (P : Call Tx → Type 0) (b : Bool) (w : ℕ) (answer : Result (TxReply Payload))
      (next : ℕ → Run Tx A)
      → P (get_transaction hash)
      → P (wait 1000)
      → Calls P (next (w + 1000))
      → Calls P (elim b as (λ x. Run Tx A) [
        | false ↦ lift timed_out
        | true ↦ await (get_transaction hash) answer >>= λ reply.
            settle_reply s clock polled settle hash reply w next
      ])
  unfolding settle_reply
  round_all P false w answer next p q h = tt
  round_all P true w (err t) next p q h = (p, tt)
  round_all P true w (ok not_found) next p q h = (p, (q, h))
  round_all P true w (ok (failed t l)) next p q h = (p, tt)
  round_all P true w (ok (confirmed d)) next p q h = (p, tt)

  -- The loop asks for the transaction with its hash, waits a second, and calls nothing else.
  pub poll_all :
      (P : Call Tx → Type 0) (fuel i w : ℕ)
      → P (get_transaction hash)
      → P (wait 1000)
      → Calls P (poll s clock polled settle hash fuel i w)
  unfolding poll
  poll_all P zero i w p q = tt
  poll_all P (suc fuel) i w p q =
      round_all P (ltb (clock w (suc i) - clock 0 0) default_timeout_ms) w (polled i)
        (poll s clock polled settle hash fuel (suc i)) p q (poll_all P fuel (suc i) (w + 1000) p q)
