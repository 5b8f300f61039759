-- ===== src/Benchmark.antt =====
-- include/benchmark: what the benchmarks keep of a run.
pub mod Result
pub mod Locks
pub mod Exchange
pub mod Distribute
pub mod Loops
pub mod Tally
pub mod Run
