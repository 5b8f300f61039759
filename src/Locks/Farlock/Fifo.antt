-- ===== src/Locks/Farlock/Fifo.antt =====
-- fifo
pub mod Defs
pub mod Keep
pub mod Joining
pub mod Going
pub mod Change
pub mod Frame
pub mod Drawing
pub mod Steps
