-- ===== src/Server.antt =====
-- The crate `server`: capture, encode, protect and send the stream, and take input and feedback.
pub mod X11
pub mod InputServer
pub mod ErasureManager
pub mod FeedbackServer
pub mod Packager
pub mod StreamingServer
pub mod Encoder
pub mod Benchmark
pub mod Capture
pub mod Main
