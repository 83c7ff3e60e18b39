-- ===== src/Verify/Calls/Answer.antt =====
-- The loop that waits for a transaction: which answer a result is made from.
use zksoroban.Prelude.{ℕ, zero, suc, ◌+◌, ◌-◌, ◌≡◌, refl, Bool, true, false, ltb}
use zksoroban.Js.Text.{Text}
use zksoroban.Types.Result.{Result, ok, err}
use zksoroban.Verify.Run.{Run, ◌>>=◌, lift, await, get_transaction}
use zksoroban.Verify.Stellar.{Stellar, TxReply, not_found, failed, confirmed}
use zksoroban.Verify.Calls.{poll, settle_reply, default_timeout_ms, timed_out}

module _ {Payload : Type 0} (polled : ℕ → Result (TxReply Payload)) (Q : Payload → Type 0) where
  -- The answers from round `i` on are NOT_FOUND until one that is a success with a payload in `Q`.
  pub data Answers : ℕ → Type 0 where
    later : {i : ℕ} → polled i ≡ ok not_found → Answers (suc i) → Answers i
    now : {i : ℕ} (payload : Payload) → polled i ≡ ok (confirmed payload) → Q payload → Answers i

pub map-Answers :
    {Payload : Type 0} {polled : ℕ → Result (TxReply Payload)} {P Q : Payload → Type 0} {i : ℕ}
    → ((p : Payload) → P p → Q p)
    → Answers polled P i
    → Answers polled Q i
map-Answers f (later e rest) = later e (map-Answers f rest)
map-Answers f (now p e h) = now p e (f p h)

module _ (s : Stellar) {Payload A : Type 0} (clock : ℕ → ℕ → ℕ)
    (polled : ℕ → Result (TxReply Payload)) (settle : Payload → Result A) (hash : Text) where
  open s use {Tx}

  round_ok :
      (i waited : ℕ) (answer : Result (TxReply Payload)) (next : ℕ → Run Tx A) {a : A}
      → polled i ≡ answer
      → (await (get_transaction hash) answer >>= λ reply.
          settle_reply s clock polled settle hash reply waited next).result
        ≡ ok a
      → ((next (waited + 1000)).result ≡ ok a → Answers polled (λ p. settle p ≡ ok a) (suc i))
      → Answers polled (λ p. settle p ≡ ok a) i
  unfolding settle_reply
  round_ok i w (err t) next e h k = absurd (cc)
  round_ok i w (ok not_found) next e h k = later e (k h)
  round_ok i w (ok (failed t l)) next e h k = absurd (cc)
  round_ok i w (ok (confirmed p)) next e h k = now p e h

  -- A round that is out of time returns nothing.
  in_time :
      (b : Bool) (m : Run Tx A) {a : A}
      → (elim b as (λ x. Run Tx A) [ false ↦ lift timed_out | true ↦ m ]).result ≡ ok a
      → m.result ≡ ok a
  unfolding timed_out
  in_time true m h = h
  in_time false m h = absurd (cc)

  pub poll-ok :
      (fuel i waited : ℕ) {a : A}
      → (poll s clock polled settle hash fuel i waited).result ≡ ok a
      → Answers polled (λ p. settle p ≡ ok a) i
  unfolding poll timed_out
  poll-ok zero i w h = absurd (cc)
  poll-ok (suc fuel) i w h =
      round_ok i w (polled i) (poll s clock polled settle hash fuel (suc i)) refl
        (in_time (ltb (clock w (suc i) - clock 0 0) default_timeout_ms) _ h)
        (poll-ok fuel (suc i) (w + 1000))
