-- ===== src/Tests.antt =====
-- Runs of the modelled code, and each theorem applied to an input where its hypotheses hold.
mod Verdicts
mod Workers
mod Pools
mod Answers
mod Strings
mod Replies
mod Network
mod Probes
