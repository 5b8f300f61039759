-- ===== src/Rdma.antt =====
-- include/rdma: pointers, memory pools and their set-up.
pub mod Listener
pub mod Pointer
pub mod Verbs
pub mod MemoryPool
pub mod Manager
pub mod QueuePair
pub mod Handshake
pub mod Connector
