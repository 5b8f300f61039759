-- ===== src/Locks/FarlockG.antt =====
-- include/locks/farlockg.h: FARLock with tickets that a batch of threads of one side shares.
pub mod State
pub mod Queue
pub mod Batch
pub mod Tickets
pub mod Program
pub mod Fifo
pub mod Exclusion
pub mod Safety
mod Tests
