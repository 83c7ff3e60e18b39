-- ===== src/Poseidon/Calls.antt =====
-- What poseidon of sdk/src/poseidon.ts accepts, and its cache of constants.
use zksoroban.Prelude.{
  ℕ, ◌+◌, ◌≤◌, ◌<◌, ◌≡◌, refl, ap, ◌∙◌, sym, List, [], ◌∷◌, Option, some, none, length, length-map,
  map, arith, ◌==◌, ltb, ◌||◌, Bool-cases, inl, inr, ◌⊎◌,
}
use zksoroban.Prelude.Int.{ℤ}
use zksoroban.Js.Value.{JsValue, array, bigint, items, of_list, Items, nil, cons}
use zksoroban.Types.{code, Thrown, invalid_public_input}
use zksoroban.Types.Result.{Result, ok, err}
use zksoroban.Poseidon.{
  PoseidonConstants, poseidon, prepare_inputs, normalize_input, normalize_inputs, mod_value,
  max_inputs, wrong_count,
}
use zksoroban.Poseidon.Cached.{Cache, get_constants, poseidon_call, poseidon_calls}
use zksoroban.Poseidon.Hash.{bigints, items-bigints, normalize_inputs-bigint}

-- With the same residues the inputs have the same hash, or throw the same.
pub poseidon_residues :
    (constants : Result PoseidonConstants) (xs ys : List ℤ)
    → map mod_value xs ≡ map mod_value ys
    → poseidon constants (bigints xs) ≡ poseidon constants (bigints ys)
unfolding poseidon prepare_inputs
poseidon_residues constants xs ys same =
    let lengths : length xs ≡ length ys =
      sym (length-map xs mod_value) ∙ ap length same ∙ length-map ys mod_value in
    rw
      (
        items-bigints xs,
        items-bigints ys,
        normalize_inputs-bigint xs,
        normalize_inputs-bigint ys,
        same,
        length-map xs bigint,
        length-map ys bigint,
        lengths,
      )
      refl

-- Throws the SDK's error for a bad input.
abbrev Refuses : {A : Type 0} → Result A → Type 0
Refuses {A} r = (t : Thrown) × (r ≡ err t) × (code t ≡ some invalid_public_input)

normalized :
    (vs : Items)
    → ((xs : List ℤ) × (vs ≡ of_list (map bigint xs))) ⊎ Refuses (normalize_inputs (items vs))
unfolding normalize_inputs normalize_input
normalized nil = inl ([], refl)
normalized (cons (bigint z) vs) = elim (normalized vs) [
  | inl (xs, e) ↦ inl (z ∷ xs, ap (cons (bigint z)) e)
  | inr (t, e, c) ↦ inr (t, rw e refl, c)
]
normalized (cons _ vs) = inr (_, refl, refl)

-- Whatever the constants, an argument of poseidon is an array of one to sixteen bigints, or
-- poseidon throws an error with code INVALID_PUBLIC_INPUT.
pub poseidon_inputs :
    (constants : Result PoseidonConstants) (v : JsValue)
    → ((xs : List ℤ) × (v ≡ bigints xs) × (0 < length xs) × (length xs ≤ 16))
      ⊎ ((t : Thrown) × (poseidon constants v ≡ err t) × (code t ≡ some invalid_public_input))
unfolding poseidon prepare_inputs
poseidon_inputs constants (array vs) =
    elim (Bool-cases (length (items vs) == 0 || ltb max_inputs (length (items vs)))) [
      | inl outside ↦ inr (wrong_count, rw outside refl, refl)
      | inr inside ↦ elim (normalized vs) [
        | inl (xs, e) ↦
            let size : length (items vs) ≡ length xs =
              ap (λ w. length (items w)) e ∙ ap length (items-bigints xs) ∙ length-map xs bigint in
            inl (xs, ap array e, ground arith, ground arith)
        | inr (t, e, c) ↦ inr (t, rw (inside, e) refl, c)
      ]
    ]
poseidon_inputs constants _ = inr (_, refl, refl)

-- What the cache holds is what the file gives.
abbrev AgreesWith : Result PoseidonConstants → Option PoseidonConstants → Type 0
AgreesWith parsed none = Unit {0}
AgreesWith parsed (some k) = parsed ≡ ok k

-- One if the file is still to be read.
abbrev unread : Option PoseidonConstants → ℕ
unread none = 1
unread (some k) = 0

abbrev cache_of : Option PoseidonConstants → ℕ → Cache
cache_of held n = record { constants = held; reads = n }

-- A call has the result without the cache, and reads the file only if nothing is held.
record IsCalled (parsed : Result PoseidonConstants) (cache : Cache) (r : Result ℤ)
    (result : Result ℤ × Cache) : Type 0 where
  same : result.0 ≡ r
  agrees : AgreesWith parsed result.1.constants
  bound :
      (k : PoseidonConstants)
      → parsed ≡ ok k
      → result.1.reads + unread result.1.constants ≤ cache.reads + unread cache.constants

call_step :
    (parsed : Result PoseidonConstants) (held : Option PoseidonConstants) (n : ℕ)
    (prepared : Result (List ℤ)) (v : JsValue)
    → prepare_inputs v ≡ prepared
    → AgreesWith parsed held
    → IsCalled parsed
        (cache_of held n)
        (poseidon parsed v)
        (poseidon_call parsed (cache_of held n) v)
unfolding poseidon poseidon_call get_constants
call_step parsed held n (err t) v e a =
    rw (e, poseidon, poseidon_call) record { same = refl; agrees = a; bound = λ k p. omega arith }
call_step parsed (some k) n (ok prepared) v e a =
    rw (e, a, poseidon, poseidon_call, get_constants)
      record { same = refl; agrees = refl; bound = λ j p. omega arith }
call_step (ok k) none n (ok prepared) v e a =
    rw (e, poseidon, poseidon_call, get_constants)
      record { same = refl; agrees = refl; bound = λ j p. omega arith }
call_step (err t) none n (ok prepared) v e a =
    rw (e, poseidon, poseidon_call, get_constants)
      record { same = refl; agrees = tt; bound = λ j p. absurd (cc) }

calls_from :
    (parsed : Result PoseidonConstants) (cache : Cache) (vs : List JsValue)
    → AgreesWith parsed cache.constants
    → ((poseidon_calls parsed cache vs).0 ≡ map (poseidon parsed) vs)
      × ((k : PoseidonConstants)
          → parsed ≡ ok k
          → (poseidon_calls parsed cache vs).1.reads ≤ cache.reads + unread cache.constants)
unfolding poseidon_calls
calls_from parsed cache [] a = (refl, λ k p. omega arith)
calls_from parsed cache (v ∷ vs) a =
    let step = call_step parsed cache.constants cache.reads (prepare_inputs v) v refl a in
    let (results, reads) = calls_from parsed (poseidon_call parsed cache v).1 vs step.agrees in
    (rw (step.same, results) refl, λ k p. omega (arith, reads k p, step.bound k p))

-- Calls of poseidon one after another, from an empty cache, have the results that they have
-- without a cache.
pub poseidon_calls-uncached :
    (parsed : Result PoseidonConstants) (vs : List JsValue)
    → (poseidon_calls parsed (record { constants = none; reads = 0 }) vs).0
      ≡ map (poseidon parsed) vs
poseidon_calls-uncached parsed vs = (calls_from parsed (cache_of none 0) vs tt).0

-- Where the file of constants is read without an exception, any number of calls of poseidon from an
-- empty cache reads it once at most.
pub poseidon_calls-reads :
    (k : PoseidonConstants) (vs : List JsValue)
    → (poseidon_calls (ok k) (record { constants = none; reads = 0 }) vs).1.reads ≤ 1
poseidon_calls-reads k vs = omega (arith, (calls_from (ok k) (cache_of none 0) vs tt).1 k refl)
