-- ===== src/Net.antt =====
-- The crate `net`: what the two programs send one another.
pub mod Packet
pub mod FeedbackPacket
pub mod Input
pub mod Pod
pub mod Wire
pub mod Address
