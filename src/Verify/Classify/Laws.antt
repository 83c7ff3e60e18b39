-- ===== src/Verify/Classify/Laws.antt =====
-- extractContractErrorCode and classifyError on the text that Soroban tools print.
use zksoroban.Prelude.{
  ℕ, ◌≡◌, refl, ◌∙◌, Bool, true, false, [], ◌∷◌, ◌++◌, some, none, ◌==◌, arith, All, ap, Bool-cases,
  Option-cases, inl, inr,
}
use zksoroban.Js.Text.{skip_spaces, is_space, Text, text, is_digit}
use zksoroban.Js.Numeral.{to_string, spelled}
use zksoroban.Js.Numeral.Laws.{spelled-to_string, to_string-All_digit, to_string-cons}
use zksoroban.Types.{
  SorobanZkErrorCode, Thrown, message, soroban_zk_error, contract_not_initialized,
  rate_limit_exceeded, invalid_window_size, proof_expired, caller_not_allowed,
}
use zksoroban.Verify.Classify.{
  contract_error_codes, strip_prefix, number_to_bracket, match_here, match_anywhere,
  extract_contract_error_code, classify_message, classify_error,
}

strip-append : (p s : Text) → strip_prefix p (p ++ s) ≡ some s
unfolding strip_prefix
strip-append [] s = refl
strip-append (c ∷ p) s = let e : (c == c) ≡ true = ground arith in rw e (strip-append p s)

-- The digits up to a closing bracket.
bracketed :
    (seen : Bool) (n d : ℕ) (ds post : Text)
    → All (λ c. is_digit c ≡ true) (d ∷ ds)
    → number_to_bracket seen n ((d ∷ ds) ++ b')' ∷ post) ≡ some (spelled 10 n (d ∷ ds))
unfolding number_to_bracket spelled
bracketed seen n d [] post (h, hs) = rw h (unfold is_digit in refl)
bracketed seen n d (e ∷ ds) post (h, hs) = rw h (bracketed true _ e ds post hs)

bracketed_number :
    (n : ℕ) (post : Text) → number_to_bracket false 0 (to_string 10 n ++ b')' ∷ post) ≡ some n
bracketed_number n post =
    let (c, cs, e) = to_string-cons 10 n in
    let digits = rw e at (to_string-All_digit n) in
    let value = rw e at (spelled-to_string 10 (omega arith) (omega arith) n) in
    rw (e, bracketed false 0 c cs post digits, value) refl

-- `Error(Contract, #n)` as the tools print it.
abbrev pub contract_error : ℕ → Text → Text
contract_error n post = text "Error(Contract, #" ++ to_string 10 n ++ b')' ∷ post

match-contract_error : (n : ℕ) (post : Text) → match_here (contract_error n post) ≡ some n
unfolding match_here strip_prefix text skip_spaces is_space
match-contract_error n post = bracketed_number n post

-- A text with `p` in front.
pub record StartsWith (p s : Text) : Type 0 where
  pub rest : Text
  pub split : s ≡ p ++ rest

prefix_cons :
    (p : ℕ) (ps : Text) (c : ℕ) (s : Text)
    → (p == c) ≡ true
    → StartsWith ps s
    → StartsWith (p ∷ ps) (c ∷ s)
prefix_cons p ps c s same h =
    let e : c ≡ p = ground arith in
    record { rest = h.rest; split = ap (λ x. x ∷ s) e ∙ ap (λ x. p ∷ x) h.split }

strip-StartsWith : (p s : Text) {rest : Text} → strip_prefix p s ≡ some rest → StartsWith p s
unfolding strip_prefix
strip-StartsWith [] s h = record { rest = s; split = refl }
strip-StartsWith (p ∷ ps) [] h = absurd (cc)
strip-StartsWith (p ∷ ps) (c ∷ s) h = elim (Bool-cases (p == c)) [
  | inl same ↦ prefix_cons p ps c s same (strip-StartsWith ps s (rw (same, strip_prefix) at h))
  | inr differs ↦ absurd (let h' = rw (differs, strip_prefix) at h in cc)
]

pub strip-none : (p s : Text) → strip_prefix p s ≡ none → ¬ StartsWith p s
strip-none p s h w = let e = strip-append p w.rest in absurd (let h' = rw w.split at h in cc)

-- `Error(Contract,` stands in `pre ++ rest` at no place before `rest`.
abbrev pub NoneIn : Text → Text → Type 0
NoneIn [] rest = Unit {0}
NoneIn (c ∷ pre) rest = (¬ StartsWith (text "Error(Contract,") (c ∷ pre ++ rest)) × NoneIn pre rest

-- The pattern does not match where `Error(Contract,` does not stand.
match_other : (s : Text) → ¬ StartsWith (text "Error(Contract,") s → match_here s ≡ none
unfolding match_here
match_other s h = elim (Option-cases (strip_prefix (text "Error(Contract,") s)) [
  | inl missing ↦ rw (missing, match_here) refl
  | inr (rest, found) ↦ absurd (h (strip-StartsWith (text "Error(Contract,") s found))
]

match_first :
    (c : ℕ) (s : Text) (n : ℕ) → match_here (c ∷ s) ≡ some n → match_anywhere (c ∷ s) ≡ some n
unfolding match_anywhere
match_first c s n h = rw (h, match_anywhere) refl

match_later :
    (c : ℕ) (s : Text) → match_here (c ∷ s) ≡ none → match_anywhere (c ∷ s) ≡ match_anywhere s
unfolding match_anywhere
match_later c s h = rw (h, match_anywhere) refl

match_anywhere-contract_error :
    (pre : Text) (n : ℕ) (post : Text)
    → NoneIn pre (contract_error n post)
    → match_anywhere (pre ++ contract_error n post) ≡ some n
unfolding text
match_anywhere-contract_error [] n post h = match_first b'E' _ n (match-contract_error n post)
match_anywhere-contract_error (c ∷ pre) n post (h, hs) =
    match_later c (pre ++ contract_error n post) (match_other (c ∷ pre ++ contract_error n post) h)
    ∙ match_anywhere-contract_error pre n post hs

-- The errors of the verifier contract, by the numbers of its `Error` enum.
pub data IsContractError : ℕ → SorobanZkErrorCode → Type 0 where
  not_initialized : IsContractError 1 contract_not_initialized
  rate_limited : IsContractError 2 rate_limit_exceeded
  invalid_window : IsContractError 3 invalid_window_size
  expired_proof : IsContractError 4 proof_expired
  caller_refused : IsContractError 5 caller_not_allowed

listed_code :
    {n : ℕ} {code : SorobanZkErrorCode}
    → IsContractError n code
    → contract_error_codes n ≡ some code
unfolding contract_error_codes
listed_code not_initialized = refl
listed_code rate_limited = refl
listed_code invalid_window = refl
listed_code expired_proof = refl
listed_code caller_refused = refl

-- An exception whose message holds `Error(Contract, #n)` for a number of the verifier contract's
-- errors, with `Error(Contract,` at no earlier place, becomes a SorobanZkError with the same
-- message and the code of that error: CONTRACT_NOT_INITIALIZED for 1, RATE_LIMIT_EXCEEDED for 2,
-- INVALID_WINDOW_SIZE for 3, PROOF_EXPIRED for 4 and CALLER_NOT_ALLOWED for 5.
pub classify-contract_error :
    (error : Thrown) (pre : Text) (n : ℕ) (post : Text) (code : SorobanZkErrorCode)
    → message error ≡ pre ++ contract_error n post
    → NoneIn pre (contract_error n post)
    → IsContractError n code
    → classify_error error ≡ soroban_zk_error (message error) code
unfolding classify_error classify_message extract_contract_error_code
classify-contract_error error pre n post code h first listed =
    rw
      (
        h,
        classify_message,
        extract_contract_error_code,
        match_anywhere-contract_error pre n post first,
        listed_code listed,
      )
      refl
