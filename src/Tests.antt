-- ===== src/Tests.antt =====
-- Runs of the model at small inputs, and the theorems applied there.
mod Data
mod Program
mod Runs
mod Parts
mod Matching
mod Models
mod Batch
mod Grouping
mod Parsing
