-- ===== src/Benchmark.antt =====
-- scripts/benchmark.py: load tests of the gateway, with an in-memory queue or a live server.
pub mod Result
pub mod Rank
pub mod Percentiles
pub mod Live
pub mod Accounting
pub mod Payload
pub mod Simulation
pub mod Capacity
pub mod Report
pub mod Export
pub mod Ranking
