-- ===== src/Verify/Calls/Settled.antt =====
-- The loop that waits for a transaction ends with the first answer that is in time.
use zksoroban.Prelude.{ℕ, zero, suc, ◌+◌, ◌-◌, ◌*◌, ◌≤◌, ◌<◌, ◌≡◌, refl, ◌∙◌, true, arith, ltb}
use zksoroban.Js.Text.{Text}
use zksoroban.Types.Result.{Result, ok}
use zksoroban.Verify.Stellar.{Stellar, TxReply, not_found, confirmed}
use zksoroban.Verify.Calls.{poll, settle_reply, default_timeout_ms, KeepsTime}

module _ (s : Stellar) {Payload A : Type 0} (clock : ℕ → ℕ → ℕ)
    (polled : ℕ → Result (TxReply Payload)) (settle : Payload → Result A) (hash : Text)
    (keeps : KeepsTime clock) where
  open s use {Tx}

  -- `k` rounds on, `k` seconds have passed.
  readings_apart : (k i w : ℕ) → clock w i + k * 1000 ≤ clock (w + k * 1000) (i + k)
  readings_apart zero i w =
      let e : i + 0 ≡ i = omega arith in
      let f : w + 0 * 1000 ≡ w = omega arith in rw (e, f) (omega arith)
  readings_apart (suc k) i w =
      let e : i + suc k ≡ suc (i + k) = omega arith in
      let f : w + suc k * 1000 ≡ w + k * 1000 + 1000 = omega arith in
      let ih = readings_apart k i w in
      let next = keeps (w + k * 1000) (i + k) 1000 in rw (e, f) (omega arith)

  -- A round that is in time makes the call and goes on with its answer.
  round_in_time :
      (fuel i w : ℕ) (answer : TxReply Payload)
      → clock w (suc i) - clock 0 0 < 30_000
      → polled i ≡ ok answer
      → (poll s clock polled settle hash (suc fuel) i w).result
        ≡ (settle_reply s clock polled settle hash answer w
            (poll s clock polled settle hash fuel (suc i))).result
  unfolding poll
  round_in_time fuel i w answer early e =
      let early' : ltb (clock w (suc i) - clock 0 0) default_timeout_ms ≡ true = ground arith in
      rw (early', poll, e) refl

  -- From round `i` on, `k` answers NOT_FOUND and then a success, all in time.
  pub poll_settles :
      (k fuel i w n : ℕ) (payload : Payload)
      → n ≡ i + k
      → k < fuel
      → clock (w + k * 1000) (suc n) - clock 0 0 < 30_000
      → ((j : ℕ) → j < n → polled j ≡ ok not_found)
      → polled n ≡ ok (confirmed payload)
      → (poll s clock polled settle hash fuel i w).result ≡ settle payload
  unfolding settle_reply
  poll_settles k zero i w n payload e enough early waiting success = absurd (omega arith)
  poll_settles zero (suc fuel) i w n payload e enough early waiting success =
      let same : n ≡ i = omega arith in
      let now : w + 0 * 1000 ≡ w = omega arith in
      let early' = rw (same, now) at early in
      round_in_time fuel i w (confirmed payload) early' (rw same at success)
  poll_settles (suc k) (suc fuel) i w n payload e enough early waiting success =
      let same : n ≡ suc i + k = omega arith in
      let apart = readings_apart (suc k) (suc i) w in
      let shifted : suc i + suc k ≡ suc n = omega arith in
      let apart' = rw shifted at apart in
      let later : w + suc k * 1000 ≡ w + 1000 + k * 1000 = omega arith in
      round_in_time fuel i w not_found (omega arith) (waiting i (omega arith))
      ∙ poll_settles k fuel (suc i) (w + 1000) n payload same (omega arith) (rw later at early)
          waiting success

  -- A round that is in time is among the first 30.
  pub round_bound : (n : ℕ) → clock (n * 1000) (suc n) - clock 0 0 < 30_000 → n < 30_000
  round_bound n early =
      let first = keeps 0 0 0 in
      let apart = readings_apart n 1 0 in
      let e : 1 + n ≡ suc n = omega arith in
      let f : 0 + n * 1000 ≡ n * 1000 = omega arith in
      let apart' = rw (e, f) at apart in omega arith
