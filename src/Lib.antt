-- ===== src/Lib.antt =====
-- A model of the TypeScript SDK of zksoroban, which encodes Groth16 proofs over BN254 for Soroban
-- contracts and verifies them through a Stellar RPC server, and the theorems that make it correct.
--
-- The parts and the files:
-- * sdk/src/types.ts is Types: the error codes, the error classes as `Thrown`, calldata and keys.
--   Types/Result has code that may throw, and Types/Errors what such code can throw. The options
--   and results of verification stand with the functions that take or return them.
-- * sdk/src/validate.ts is Validate: `validate_proof_input` is validateProofInput, and
--   Validate/Calldata has validateCalldata. Validate/Shape says what a well-formed proof is, and
--   Validate/Sound and Validate/Complete relate the two.
-- * sdk/src/proof.ts is Proof: `format_proof` is formatProof, and Proof/VerifyingKey has
--   formatVerifyingKey. Proof/Layout is the layout of the calldata that they are compared with,
--   and Proof/Decode reads calldata back.
-- * sdk/src/verify.ts is Verify, a file for each of its functions: OnChain (verifyOnChain), Batch
--   (verifyBatchOnChain), Fee (estimateVerifyFee), Registry (verifyViaRegistry and
--   verifyBatchViaRegistry), Config (getContractConfig, and getContractVersion of
--   sdk/src/version.ts), Classify (classifyError), and Calls (what they share).
--   Verify/Returned says which diagnostic event holds a returned value.
-- * sdk/src/verifyOffChain.ts is Verify/OffChain, with snarkjs as a parameter.
-- * sdk/src/poseidon.ts is Poseidon: `poseidon` takes the tables of constants, which the code reads
--   from circomlibjs, as an argument. Poseidon/Spec is the hash over vectors and matrices as
--   functions, Poseidon/Refines and its siblings compare the rounds with it, and Poseidon/Cached
--   has the cache of the tables.
-- * sdk/src/cli.ts is Cli, with the files as a parameter: Cli/Flags has getFlag, Cli/Reports verify
--   and estimate-fee, Cli/Commands prove, Cli/Key format-vk,
--   and Cli/Printed the JSON that it prints (Js/Json). `run_cli` is runCli.
-- * sdk/scripts/golden.ts is Golden, which runs Cli: Golden/Lines has its diff, on which
--   Golden/Diff has the lemmas, and Golden/Checks and Golden/Update are about the exit code without
--   and with --update.
-- * sdk/src/browser.ts is Browser, with snarkjs as a parameter.
-- * demo/src is Demo: Demo/Ask has the questions of run.ts as functions of the typed lines,
--   Demo/Main its scenarios, Demo/Fee is estimateFee.ts, and Demo/Batch is batchVerify.ts.
--   Demo/Answers, Demo/Rejected and Demo/Submissions are about these.
-- * Js is the JavaScript underneath: strings as lists of code units, numerals, Buffers, and
--   run-time values. Prelude has the names, tests and list lemmas that all share. Tests runs the
--   models at concrete inputs.
--
-- An argument that may be anything at run time is a `JsValue`. A function that may throw returns a
-- `Result`. An async function is a `Run`: the calls that it makes of the RPC server and of the
-- console, in order, and its result. The package @stellar/stellar-sdk is the parameter `Stellar`,
-- and the server's answers during a run, the readings of the clock among them, are the parameter
-- `Server`. verifyOnChain calls formatProof for a bundle and validateCalldata for all calldata
-- before it makes a call. The programs of demo/src call Poseidon, Proof and Verify in one `Run`.
--
-- A wait is a call in the `Run`. The clock is read as a function of the milliseconds that the run
-- has waited and of the count of readings, and `KeepsTime` says of it that it does not go back and
-- that a wait takes its time at least. The polling loop has fuel 30,000: each round behind the first
-- comes behind a wait of a second, and the loop ends past 30 seconds, so 30 rounds use up the time
-- where the clock keeps time. Printing a number has the number as fuel, which is at least the count
-- of its digits.
--
-- An array has no holes: the `forEach` and `map` of the source skip the holes of a sparse array,
-- which neither JSON nor an array literal of values has. A verifying key is any run-time value,
-- as JSON.parse returns it.
--
-- Not modelled: the contracts and circuits, which are in other languages; the reading of the tables
-- of constants in sdk/src/poseidon.ts, and of files, as JSON; the URL of the server; in demo/src,
-- the handling of SIGINT, the reading of the circuit ids from the environment, and what happens to
-- an exception at the end of a program. String.toLowerCase, whose tables are the engine's, is a
-- parameter where the demo uses it.
pub mod Prelude
pub mod Js
pub mod Types
pub mod Validate
pub mod Proof
pub mod Poseidon
pub mod Cli
pub mod Golden
pub mod Browser
pub mod Verify
pub mod Demo
mod Tests
