-- ===== src/Demo/Submissions.antt =====
-- Which transactions the programs of demo/src submit.
use zksoroban.Prelude.{
  ◌≤◌, ◌≡◌, inl, inr, refl, Bool, true, false, List, Option, arith, Bool-cases, all,
}
use zksoroban.Js.Text.{Text, text}
use zksoroban.Js.Value.{JsValue, undefined}
use zksoroban.Types.{Thrown, is_zk_input_error}
use zksoroban.Types.Result.{Result, ok, err}
use zksoroban.Proof.{format_proof}
use zksoroban.Poseidon.{PoseidonConstants, poseidon}
use zksoroban.Cli.{Files, or_default}
use zksoroban.Verify.Run.{lift}
use zksoroban.Verify.Run.Sends.{submissions, Within, bind-Within, quiet-Within}
use zksoroban.Verify.Stellar.{Stellar, Server}
use zksoroban.Verify.OnChain.{VerifyOptions, VerifyResult, verify_on_chain}
use zksoroban.Verify.Fee.{estimate_verify_fee}
use zksoroban.Verify.Registry.{verify_via_registry, verify_batch_via_registry}
use zksoroban.Verify.Sends.{
  on_chain-Within, estimate-Within, registry-Within, registry_batch-Within,
}
use zksoroban.Demo.{log_line, random_secret}
use zksoroban.Demo.Ask.{Answers}
use zksoroban.Demo.Main.{
  FullProof, log_at, verify_and_report, report_rejection, rejection_lines, scenario_three,
  run_scenarios,
}
use zksoroban.Demo.Fee.{Surroundings, require_env, result_lines, estimate_and_submit, fee_main}
use zksoroban.Demo.Batch.{
  CircuitIds, load_fixture, is_given, announce_registry, require_network, report_results,
  batch_main,
}
use zksoroban.Demo.Rejected.{log_at-cases}

log_line-quiet : (Tx : Type 0) (line : Text) → submissions (log_line {Tx = Tx} line).calls ≡ 0
unfolding log_line
log_line-quiet Tx line = refl

module _ (s : Stellar) where
  open s use {Tx}

  log_at-quiet :
      (verbosity line level : Text) → submissions (log_at s verbosity line level).calls ≡ 0
  log_at-quiet verbosity line level = elim (log_at-cases s verbosity line level) [
    | inl shown ↦ rw shown (log_line-quiet Tx line)
    | inr hidden ↦ rw hidden refl
  ]

  report-Within :
      (server : Server s) (proof signals : JsValue) (contract_id verbosity : Text)
      → Within 0 (verify_and_report s server proof signals contract_id verbosity)
  unfolding verify_and_report
  report-Within server proof signals contract_id verbosity =
      quiet-Within 0 (log_at s verbosity _ _) _ (log_at-quiet verbosity _ _) λ u.
        quiet-Within 0 (lift (format_proof proof signals undefined)) _ refl λ calldata.
          bind-Within 0 0 (verify_via_registry s server _) _ (registry-Within s server _)
            λ verified. omega (arith, log_line-quiet Tx _)

  result_lines-Within : (result : VerifyResult) → Within 0 (result_lines s result)
  unfolding result_lines log_line
  result_lines-Within result = omega arith

  estimate_and_submit-Within :
      (first second : Server s) (opts : VerifyOptions s)
      → Within 1 (estimate_and_submit s first second opts)
  unfolding estimate_and_submit
  estimate_and_submit-Within first second opts =
      quiet-Within 1 (log_line _) _ (log_line-quiet Tx _) λ u.
        bind-Within 0 1 (estimate_verify_fee s first opts) _ (estimate-Within s first opts)
          λ estimate. quiet-Within 1 (log_line _) _ (log_line-quiet Tx _) λ v.
            quiet-Within 1 (log_line _) _ (log_line-quiet Tx _) λ w.
              bind-Within 1 0 (verify_on_chain s second opts) (λ result. result_lines s result)
                (on_chain-Within s second opts) λ result. result_lines-Within result

  fee_main-Within :
      (first second : Server s) (around : Surroundings s)
      → Within 1 (fee_main s first second around)
  unfolding fee_main
  fee_main-Within first second around =
      quiet-Within 1 (lift (require_env around.env _)) _ refl λ secret_key.
        quiet-Within 1 (lift (around.keypair_from_secret secret_key)) _ refl λ keypair.
          quiet-Within 1 (lift (random_secret around.random_bytes)) _ refl λ secret.
            quiet-Within 1 (lift (poseidon around.constants _)) _ refl λ commitment.
              quiet-Within 1 (log_line _) _ (log_line-quiet Tx _) λ u.
                quiet-Within 1 (log_line _) _ (log_line-quiet Tx _) λ v.
                  quiet-Within 1 (log_line _) _ (log_line-quiet Tx _) λ w.
                    quiet-Within 1 (lift (around.full_prove _ _)) _ refl
                      λ made. estimate_and_submit-Within first second _

  rejection-Within : {A : Type 0} (r : Result A) → Within 0 (report_rejection s r)
  unfolding report_rejection rejection_lines log_line
  rejection-Within (ok a) = omega arith
  rejection-Within (err t) = elim (Bool-cases (is_zk_input_error t)) [
    | inl zk ↦ rw zk (omega arith)
    | inr other ↦ rw other (omega arith)
  ]

  scenario_three-Within :
      (proof : JsValue) (verbosity : Text) → Within 0 (scenario_three s proof verbosity)
  unfolding scenario_three
  scenario_three-Within proof verbosity = quiet-Within 0 (log_line _) _ (log_line-quiet Tx _) λ u.
      quiet-Within 0 (log_at s verbosity _ _) _ (log_at-quiet verbosity _ _) λ v. rejection-Within _

  run_scenarios-Within :
      (first second : Server s) (constants : Result PoseidonConstants)
      (full_prove : Text → Text → Result FullProof) (inherited_text : Text) (answers : Answers)
      → Within 0 (run_scenarios s first second constants full_prove inherited_text answers)
  unfolding run_scenarios
  run_scenarios-Within first second constants full_prove inherited_text answers =
      quiet-Within 0 (lift (poseidon constants _)) _ refl λ commitment.
        quiet-Within 0 (log_at s answers.verbosity _ _) _ (log_at-quiet _ _ _) λ a.
          quiet-Within 0 (log_at s answers.verbosity _ _) _ (log_at-quiet _ _ _) λ b.
            quiet-Within 0 (log_at s answers.verbosity _ _) _ (log_at-quiet _ _ _) λ c.
              quiet-Within 0 (log_at s answers.verbosity _ _) _ (log_at-quiet _ _ _) λ d.
                quiet-Within 0 (lift (full_prove _ _)) _ refl λ made.
                  quiet-Within 0 (log_line _) _ (log_line-quiet Tx _) λ e.
                    bind-Within 0 0
                      (verify_and_report s first made.proof made.public_signals answers.contract_id
                        answers.verbosity)
                      _ (report-Within first _ _ _ _)
                      λ f. quiet-Within 0 (log_line _) _ (log_line-quiet Tx _) λ g.
                        quiet-Within 0 (log_at s answers.verbosity _ _) _ (log_at-quiet _ _ _) λ h.
                          quiet-Within 0 (log_at s answers.verbosity _ _) _ (log_at-quiet _ _ _)
                            λ i. quiet-Within 0 (lift (poseidon constants _)) _ refl λ wrong.
                              bind-Within 0 0
                                (verify_and_report s second made.proof _ answers.contract_id
                                  answers.verbosity)
                                _ (report-Within second _ _ _ _)
                                λ j. scenario_three-Within made.proof answers.verbosity

  announce-quiet : (given : Option Text) → submissions (announce_registry s given).calls ≡ 0
  unfolding announce_registry log_line
  announce-quiet given = elim (Bool-cases (is_given given)) [
    | inl set ↦ rw set refl
    | inr unset ↦ rw unset refl
  ]

  results-Within : (b : Bool) (results : List Bool) → Within 0 (report_results s b results)
  unfolding report_results log_line
  results-Within false results = omega arith
  results-Within true results = elim (Bool-cases (all (λ b. b) results)) [
    | inl verified ↦ rw verified (omega arith)
    | inr other ↦ rw other (omega arith)
  ]

  batch_main-Within :
      (server : Server s) (to_lower : Text → Text) (inspect : List Bool → Text) (files : Files)
      (circuits : Text) (env : Text → Option Text) (ids : CircuitIds)
      → Within 0 (batch_main s server to_lower inspect files circuits env ids)
  unfolding batch_main
  batch_main-Within server to_lower inspect files circuits env ids =
      quiet-Within 0
        (lift
          (require_network (to_lower (or_default (env (text "SOROBAN_NETWORK")) (text "testnet")))))
        _ refl
        λ known.
          quiet-Within 0 (announce_registry s (env (text "SOROBAN_TEST_REGISTRY_CONTRACT_ID"))) _
            (announce-quiet _)
            λ u.
              quiet-Within 0 (lift (load_fixture files circuits (text "range_proof"))) _ refl λ a.
                quiet-Within 0 (lift (load_fixture files circuits (text "threshold_2of3"))) _ refl
                  λ b.
                    quiet-Within 0 (lift (load_fixture files circuits (text "merkle_inclusion"))) _
                      refl
                      λ c. quiet-Within 0 (log_line _) _ (log_line-quiet Tx _) λ v.
                        bind-Within 0 0 (verify_batch_via_registry s server _) _
                          (registry_batch-Within s server _)
                          λ results.
                            quiet-Within 0 (log_line _) _ (log_line-quiet Tx _)
                              λ w. results-Within _ results

  -- Where the estimate of the fee throws, estimateFee.ts throws the same and submits nothing.
  pub estimate_and_submit-refused :
      (first second : Server s) (opts : VerifyOptions s) (t : Thrown)
      → (estimate_verify_fee s first opts).result ≡ err t
      → ((estimate_and_submit s first second opts).result ≡ err t)
        × (submissions (estimate_and_submit s first second opts).calls ≡ 0)
  unfolding estimate_and_submit log_line
  estimate_and_submit-refused first second opts t e =
      (rw e refl, rw e (let quiet = estimate-Within s first opts in omega arith))

  -- Whatever the servers answer, estimateFee.ts submits at most one transaction, and run.ts, behind
  -- the answers, and batchVerify.ts submit none.
  pub demo_submissions :
      (first second : Server s) (around : Surroundings s) (constants : Result PoseidonConstants)
      (full_prove : Text → Text → Result FullProof) (inherited_text : Text) (answers : Answers)
      (to_lower : Text → Text) (inspect : List Bool → Text) (files : Files) (circuits : Text)
      (env : Text → Option Text) (ids : CircuitIds)
      → (submissions (fee_main s first second around).calls ≤ 1)
        × (submissions
              (run_scenarios s first second constants full_prove inherited_text answers).calls
            ≤ 0)
        × (submissions (batch_main s first to_lower inspect files circuits env ids).calls ≤ 0)
  demo_submissions first second around constants full_prove inherited_text answers to_lower inspect
        files circuits env ids =
      (
        fee_main-Within first second around,
        run_scenarios-Within first second constants full_prove inherited_text answers,
        batch_main-Within first to_lower inspect files circuits env ids,
      )
