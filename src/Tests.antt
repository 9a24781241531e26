-- ===== src/Tests.antt =====
-- Runs of the model at concrete inputs.
mod Instances
mod Sequences
mod Signatures
mod Columns
mod Files
mod Pipeline
