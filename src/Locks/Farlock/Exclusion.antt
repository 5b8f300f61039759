-- ===== src/Locks/Farlock/Exclusion.antt =====
-- excl
pub mod Peterson
pub mod Booking
pub mod LocalBook
pub mod RemoteBook
pub mod Safe
pub mod Turns
