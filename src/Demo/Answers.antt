-- ===== src/Demo/Answers.antt =====
-- What the questions of demo/src/run.ts let through.
use zksoroban.Prelude.{
  ℕ, ◌^◌, ◌<◌, length, ◌≡◌, ◌↔◌, ◌⊎◌, inl, inr, refl, ap, sym, ◌∙◌, true, false, List, [], ◌∷◌,
  Option, Bool-cases, arith,
}
use zksoroban.Prelude.Int.{pos}
use zksoroban.Js.Text.{Text, text, text_eq}
use zksoroban.Js.Bytes.{Bytes}
use zksoroban.Js.Numeral.{is_decimal, spelled}
use zksoroban.Js.BigInt.Laws.{to_bigint-decimal}
use zksoroban.Js.Bytes.{to_hex, be_value}
use zksoroban.Js.Bytes.Hex.{AllBytes, spelled-to_hex, to_hex-hex, to_bigint-hex, be_value-bound}
use zksoroban.Types.Result.{Result, ok}
use zksoroban.Golden.{has_text}
use zksoroban.Demo.{random_secret, networks, is_network}
use zksoroban.Demo.Ask.{
  Ended, waiting, answered, Asks, go_on, lift, ask, answer_of, is_error, check_secret,
  check_network, check_contract, check_verbosity, is_contract_id, levels, Answers, secret_of,
  collect_answers,
}

-- The first of the lines that stands for a value without an error, its value, and the lines behind.
pub data FirstGood (default : Option Text) (validate : Text → Option Text)
    : List Text → Text → List Text → Type 0 where
  here :
      {input : Text} {rest : List Text}
      → is_error (validate (answer_of default input)) ≡ false
      → FirstGood default validate (input ∷ rest) (answer_of default input) rest
  later :
      {input value : Text} {lines rest : List Text}
      → is_error (validate (answer_of default input)) ≡ true
      → FirstGood default validate lines value rest
      → FirstGood default validate (input ∷ lines) value rest

module _ (label : Text) (default : Option Text) (validate : Text → Option Text) where
  ask-good :
      (input : Text) (lines : List Text)
      → is_error (validate (answer_of default input)) ≡ false
      → (ask label default validate (input ∷ lines)).ended
        ≡ answered (answer_of default input) lines
  unfolding ask
  ask-good input lines good = rw good refl

  ask-bad :
      (input : Text) (lines : List Text)
      → is_error (validate (answer_of default input)) ≡ true
      → (ask label default validate (input ∷ lines)).ended
        ≡ (ask label default validate lines).ended
  unfolding ask
  ask-bad input lines bad = rw bad refl

  ask_sound :
      (lines : List Text) (value : Text) (rest : List Text)
      → (ask label default validate lines).ended ≡ answered value rest
      → FirstGood default validate lines value rest
  ask_sound [] value rest h = absurd (unfold ask in (cc))
  ask_sound (input ∷ lines) value rest h =
      elim (Bool-cases (is_error (validate (answer_of default input)))) [
        | inl bad ↦ later bad (ask_sound lines value rest (sym (ask-bad input lines bad) ∙ h))
        | inr good ↦ found input lines good (sym (ask-good input lines good) ∙ h)
      ]
    where
      found :
          (input : Text) (lines : List Text)
          → is_error (validate (answer_of default input)) ≡ false
          → ◌≡◌ {A = Ended Text} (answered (answer_of default input) lines) (answered value rest)
          → FirstGood default validate (input ∷ lines) value rest
      found input lines good e =
          let v : answer_of default input ≡ value = cc in
          let r : lines ≡ rest = cc in rw (← v, ← r) (here good)

  ask_complete :
      {lines : List Text} {value : Text} {rest : List Text}
      → FirstGood default validate lines value rest
      → (ask label default validate lines).ended ≡ answered value rest
  ask_complete (here {input} {rest} good) = ask-good input rest good
  ask_complete (later {input} {lines} bad more) = ask-bad input lines bad ∙ ask_complete more

  -- ask has an answer exactly if a line stands for a value without an error; the answer is the
  -- value of the first such line, and the lines behind it are left.
  pub ask_iff :
      (lines : List Text) (value : Text) (rest : List Text)
      → ((ask label default validate lines).ended ≡ answered value rest)
        ↔ FirstGood default validate lines value rest
  ask_iff lines value rest = (ask_sound lines value rest, λ f. ask_complete f)

-- A dialogue that does not throw, and has an answer that satisfies `P` if it has one.
pub data Fine {A : Type 0} (P : A → Type 0) : Ended A → Type 0 where
  waits : Fine P waiting
  answers : {a : A} {rest : List Text} → P a → Fine P (answered a rest)

bind-Fine :
    {A B : Type 0} {P : A → Type 0} {Q : B → Type 0} (shown : List Text) {e : Ended A}
    (next : A → Asks B)
    → Fine P e
    → ((a : A) (rest : List Text) → P a → Fine Q (next a rest).ended)
    → Fine Q (go_on shown e next).ended
bind-Fine shown next waits k = waits
bind-Fine shown next (answers {a} {rest} h) k = k a rest h

ask-Fine :
    (label : Text) (default : Option Text) (validate : Text → Option Text) (lines : List Text)
    → Fine (λ v. is_error (validate v) ≡ false) (ask label default validate lines).ended
ask-Fine label default validate [] = unfold ask in waits
ask-Fine label default validate (input ∷ lines) =
    elim (Bool-cases (is_error (validate (answer_of default input)))) [
      | inl bad ↦
          rw (ask-bad label default validate input lines bad)
            (ask-Fine label default validate lines)
      | inr good ↦ rw (ask-good label default validate input lines good) (answers good)
    ]

lift-Fine :
    {A : Type 0} {P : A → Type 0} {r : Result A} {a : A} (lines : List Text)
    → r ≡ ok a
    → P a
    → Fine P (lift r lines).ended
lift-Fine lines e h = rw e (answers h)

random_secret-hex :
    (b : ℕ) (bytes : Bytes)
    → AllBytes (b ∷ bytes)
    → random_secret (b ∷ bytes) ≡ ok (pos (be_value 0 (b ∷ bytes)))
unfolding random_secret to_hex text
random_secret-hex b bytes h =
    to_bigint-hex _ _ (to_hex-hex (b ∷ bytes) h)
    ∙ ap (λ n. ok (pos n)) (spelled-to_hex 0 (b ∷ bytes) h)

-- For bytes, of which there is at least one, randomSecret is the big-endian number of the bytes,
-- which for `k` of them is below 256 ^ k.
pub random_secret-value :
    (b : ℕ) (bytes : Bytes)
    → AllBytes (b ∷ bytes)
    → (random_secret (b ∷ bytes) ≡ ok (pos (be_value 0 (b ∷ bytes))))
      × (be_value 0 (b ∷ bytes) < 256 ^ length (b ∷ bytes))
random_secret-value b bytes h =
    (random_secret-hex b bytes h, omega (arith, be_value-bound 0 (b ∷ bytes) h))

-- What collectAnswers ends with.
pub record AreValid (a : Answers) : Type 0 where
  pub secret : ℕ
  pub secret_is : a.secret ≡ pos secret
  pub network_known : is_network a.rpc_url ≡ true
  pub rpc_url_of : a.rpc_url ≡ networks a.network
  pub contract_well_formed : is_contract_id a.contract_id ≡ true
  pub level_known : has_text levels a.verbosity ≡ true

check_network-known :
    (to_lower : Text → Text) (v : Text)
    → is_error (check_network to_lower v) ≡ false
    → is_network (networks (to_lower v)) ≡ true
unfolding check_network text
check_network-known to_lower v h = ground arith

check_contract-known : (v : Text) → is_error (check_contract v) ≡ false → is_contract_id v ≡ true
unfolding check_contract text
check_contract-known v h = ground arith

check_verbosity-known :
    (to_lower : Text → Text) (v : Text)
    → is_error (check_verbosity to_lower v) ≡ false
    → has_text levels (to_lower v) ≡ true
unfolding check_verbosity text
check_verbosity-known to_lower v h = ground arith

-- A secret that is let through is "random" or decimal.
check_secret-known :
    (v : Text)
    → is_error (check_secret v) ≡ false
    → (text_eq v (text "random") ≡ true)
      ⊎ ((text_eq v (text "random") ≡ false) × (is_decimal v ≡ true))
unfolding check_secret text is_decimal
check_secret-known v h = elim (Bool-cases (text_eq v (text "random"))) [
  | inl random ↦ inl random
  | inr other ↦ inr (other, ground arith)
]

secret_of-known :
    (b : ℕ) (bytes : Bytes) (raw : Text)
    → AllBytes (b ∷ bytes)
    → is_error (check_secret raw) ≡ false
    → (n : ℕ) × (secret_of (b ∷ bytes) raw ≡ ok (pos n))
unfolding secret_of
secret_of-known b bytes raw h good = elim (check_secret-known raw good) [
  | inl random ↦ (be_value 0 (b ∷ bytes), rw random (random_secret-hex b bytes h))
  | inr (other, digits) ↦ (spelled 10 0 raw, rw other (to_bigint-decimal raw digits))
]

-- With bytes for the random secret, of which there is at least one, collectAnswers does not throw,
-- and where it ends, the secret is not negative, the URL is the network's entry, which is not
-- undefined, the contract's id has the form of one, and the level is one of the three.
pub collect_answers-Fine :
    (to_lower : Text → Text) (b : ℕ) (bytes : Bytes) (lines : List Text)
    → AllBytes (b ∷ bytes)
    → Fine AreValid (collect_answers to_lower (b ∷ bytes) lines).ended
unfolding collect_answers
collect_answers-Fine to_lower b bytes lines h =
    bind-Fine _ _ (ask-Fine _ _ check_secret lines) λ raw l1 secret_good.
      bind-Fine _ _ (ask-Fine _ _ (check_network to_lower) l1) λ network l2 network_good.
        bind-Fine _ _ (ask-Fine _ _ check_contract l2) λ contract_id l3 contract_good.
          bind-Fine _ _ (ask-Fine _ _ (check_verbosity to_lower) l3) λ verbosity l4 level_good.
            let (n, e) = secret_of-known b bytes raw h secret_good in
            bind-Fine _ _ (lift-Fine {P = λ z. z ≡ pos n} l4 e refl) λ secret l5 same.
              answers (record {
                secret = n;
                secret_is = same;
                network_known = check_network-known to_lower network network_good;
                rpc_url_of = refl;
                contract_well_formed = check_contract-known contract_id contract_good;
                level_known = check_verbosity-known to_lower verbosity level_good;
              })
