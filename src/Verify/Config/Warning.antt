-- ===== src/Verify/Config/Warning.antt =====
-- When getContractVersion of sdk/src/version.ts warns.
use zksoroban.Prelude.{
  true, false, List, [], ◌∷◌, ◌++◌, ◌≡◌, ◌≢◌, ◌⊎◌, inl, inr, refl, ap, ◌∙◌, append_assoc,
  Bool-cases,
}
use zksoroban.Js.Text.{Text, text, text_eq, text_eq_sound, neq-of_text_eq}
use zksoroban.Types.Result.{Result, ok, err, ok-injective}
use zksoroban.Verify.Run.{
  Call, get_network, simulate_transaction, warn, Run, ◌>>=◌, continue, lift, await,
}
use zksoroban.Verify.Stellar.{Stellar, Server}
use zksoroban.Verify.Config.{
  get_contract_version, get_contract_version_body, expected_contract_version, version_warning,
  warn_of_version, version_value, as_network_error,
}

-- A run that returns has returned from its first step, and makes the calls of both.
record IsSplit {Tx A B : Type 0} (m : Run Tx A) (next : A → Run Tx B) (b : B) : Type 0 where
  value : A
  first : m.result ≡ ok value
  second : (next value).result ≡ ok b
  made : (m >>= next).calls ≡ m.calls ++ (next value).calls

IsSplit-continue :
    {Tx A B : Type 0} (calls : List (Call Tx)) (r : Result A) (next : A → Run Tx B) (b : B)
    → (continue calls r next).result ≡ ok b
    → IsSplit (record { calls = calls; result = r }) next b
IsSplit-continue calls (err t) next b h = absurd (cc)
IsSplit-continue calls (ok a) next b h = record { value = a; first = refl; second = h; made = refl }

split :
    {Tx A B : Type 0} (m : Run Tx A) (next : A → Run Tx B) (b : B)
    → (m >>= next).result ≡ ok b
    → IsSplit m next b
split m next b h = IsSplit-continue m.calls m.result next b h

as_network_error-ok : {A : Type 0} (r : Result A) {a : A} → as_network_error r ≡ ok a → r ≡ ok a
as_network_error-ok (ok b) h = h
as_network_error-ok (err t) h = absurd (cc)

module _ (s : Stellar) (to_native : s.ScVal → Result Text) (server : Server s) where
  open s use {Tx, new_account, new_contract, build}

  -- The warning that names a version.
  abbrev pub warning_of : Text → Text
  warning_of version =
      text "zksoroban: deployed contract version \""
      ++ version
      ++ text
          "\" does not match the version this SDK build expects (\"0.1.0\"). Proof encoding or verification behavior may not match what this SDK was built against."

  version_warning-text : (version : Text) → version_warning version ≡ warning_of version
  unfolding version_warning text
  version_warning-text version = simp (append_assoc)

  -- The returned version is the expected one and no warning is given, or it is another and one is.
  pub WarnsFor : Text → List (Call Tx) → Type 0
  WarnsFor version calls =
      ((version ≡ text "0.1.0") × (calls ≡ []))
      ⊎ ((version ≢ text "0.1.0") × (calls ≡ warn (warning_of version) ∷ []))

  warn-expected :
      (version : Text)
      → text_eq version expected_contract_version ≡ true
      → warn_of_version s to_native version ≡ lift (ok tt)
  unfolding warn_of_version
  warn-expected version e = rw e refl

  warn-other :
      (version : Text)
      → text_eq version expected_contract_version ≡ false
      → warn_of_version s to_native version ≡ await (warn (version_warning version)) (ok tt)
  unfolding warn_of_version
  warn-other version e = rw e refl

  ends :
      (version out : Text)
      → (warn_of_version s to_native version >>= λ u. lift (ok version)).result ≡ ok out
      → WarnsFor out (warn_of_version s to_native version >>= λ u. lift (ok version)).calls
  unfolding WarnsFor
  ends version out h = elim (Bool-cases (text_eq version expected_contract_version)) [
    | inl same ↦
        let out_is : version ≡ out = ok-injective (rw (warn-expected version same) at h) in
        rw (warn-expected version same, ← out_is)
          (inl (text_eq_sound version expected_contract_version same, refl))
    | inr other ↦
        let out_is : version ≡ out = ok-injective (rw (warn-other version other) at h) in
        rw (warn-other version other, ← out_is)
          (inr (
            neq-of_text_eq version expected_contract_version other,
            ap (λ m. warn m ∷ []) (version_warning-text version),
          ))
  ]

  -- Where getContractVersion returns a version, it has asked for the network and simulated one
  -- transaction, and behind that it has warned, once, that the version is not the expected one, if
  -- it is not 0.1.0, and has made no further call otherwise.
  pub get_contract_version-warns :
      (contract_id version : Text)
      → (get_contract_version s to_native server contract_id).result ≡ ok version
      → (tx : Tx) × (warnings : List (Call Tx)) × ((get_contract_version s to_native server
            contract_id).calls
          ≡ get_network ∷ simulate_transaction tx ∷ warnings)
        × WarnsFor version warnings
  unfolding get_contract_version get_contract_version_body
  get_contract_version-warns contract_id version h =
      let connected = split (lift server.connect) _ version (as_network_error-ok _ h) in
      let asked = split (await get_network server.network) _ version connected.second in
      let named = split (lift (new_account server.ephemeral)) _ version asked.second in
      let opened = split (lift (new_contract contract_id)) _ version named.second in
      let built =
        split (lift (build named.value asked.value opened.value (text "version") [])) _ version
          opened.second in
      let replied =
        split (await (simulate_transaction built.value) (server.simulate built.value)) _ version
          built.second in
      let held = split (lift (version_value s to_native replied.value)) _ version replied.second in
      let read = split (lift (to_native held.value)) _ version held.second in
      (
        built.value,
        _,
        connected.made
            ∙ asked.made
            ∙ ap (λ calls. get_network ∷ calls)
                (named.made
                  ∙ opened.made
                  ∙ built.made
                  ∙ replied.made
                  ∙ ap (λ calls. simulate_transaction built.value ∷ calls) (held.made ∙ read.made)),
        ends read.value version read.second,
      )
