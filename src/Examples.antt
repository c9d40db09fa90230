-- ===== src/Examples.antt =====
-- Runs of the definitions at concrete inputs, and the theorems applied to them. The sample host's
-- sha256 gives one digest for every text.
mod Samples
mod Runs
mod Trails
mod Documents
mod Removals
mod Access
mod Copies
mod Toy
mod Secrets
mod Stores
mod Requests
mod Closures
