-- ===== src/Tests.antt =====
-- The theorems at concrete inputs, and runs of the definitions.
mod Queue
mod DeadLetter
mod CtoAgent
mod Health
mod Dispatchers
mod Worker
mod Gateway
mod Benchmark
mod Lifecycle
mod Filing
