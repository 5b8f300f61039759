-- ===== src/Locks/FarlockG/Exclusion.antt =====
-- The exclusion of the threads of both sides of include/locks/farlockg.h.
pub mod Peterson
pub mod LocalPeterson
pub mod RemotePeterson
pub mod Booking
pub mod LocalOthers
pub mod LocalPlain
pub mod LocalDraw
pub mod LocalServe
pub mod LocalPass
pub mod RemoteOthers
pub mod RemotePlain
pub mod RemoteDraw
pub mod RemoteServe
pub mod RemotePass
pub mod Steps
pub mod Safe
