-- ===== src/Verdict.antt =====
-- Phase 7 of `run_full_target` in src/cli/orchestrator.cpp, from the probes' results to the verdict.
pub mod Cdn
pub mod Book
pub mod Blocks
pub mod Outcome
pub mod Rules
pub mod Score
pub mod Flags
pub mod Tier
