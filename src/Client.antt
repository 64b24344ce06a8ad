-- ===== src/Client.antt =====
-- The crate `client`: receive, repair and show the stream, and send input and feedback.
pub mod Input
pub mod DoubleBuffer
pub mod LvDecoder
pub mod Video
pub mod Feedback
pub mod Ui
pub mod Network
