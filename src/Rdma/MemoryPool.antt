-- ===== src/Rdma/MemoryPool.antt =====
-- include/rdma/memory_pool.h: the memory that a thread owns, and its one-sided operations.
pub mod State
pub mod Requests
pub mod Chunks
pub mod Quiet
pub mod Atomics
pub mod Filling
pub mod Owner
pub mod Words
pub mod Retries
mod Tests
