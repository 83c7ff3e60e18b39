-- ===== src/Tests.antt =====
-- Runs of the models on concrete inputs, and the theorems at such inputs.
mod Sample
mod Proofs
mod Keys
mod Server
mod Verify
mod Batch
mod Parts
mod Poseidon
mod Cli
mod Config
mod Golden
mod Demo
