-- ===== src/Tests.antt =====
-- Runs of the model on small inputs, and each theorem at an input that meets its hypotheses.
mod Samples
mod Queue
mod Views
mod Related
mod Found
mod Archives
mod Gathered
mod Ingested
mod Scored
mod Vectors
mod Processed
mod Deleted
mod Profiled
mod Reindexed
