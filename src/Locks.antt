-- ===== src/Locks.antt =====
-- include/locks: the locks that the program implements.
pub mod Common
pub mod Spec
pub mod Farlock
pub mod TicketLock
pub mod FarlockG
