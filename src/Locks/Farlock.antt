-- ===== src/Locks/Farlock.antt =====
-- include/locks/farlock.h.
pub mod State
pub mod Queue
pub mod Tickets
pub mod Program
pub mod Fifo
pub mod Exclusion
pub mod Safety
pub mod Held
pub mod Owner
mod Tests
