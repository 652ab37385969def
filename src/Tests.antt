-- ===== src/Tests.antt =====
-- Runs of the definitions on concrete data, and the theorems applied to them.
mod Samples
mod Scheduling
mod Moves
mod Policies
mod Records
mod Sources
mod Series
