-- ===== src/Locks/FarlockG/Fifo.antt =====
-- The order of the threads of each side of include/locks/farlockg.h.
pub mod Defs
pub mod Keep
pub mod Joining
pub mod Plain
pub mod Passing
pub mod Change
pub mod Frame
pub mod Steps
