-- ===== src/System.antt =====
-- How the two programs work together over the network.
pub mod InputPath
pub mod InputRelay
pub mod InputNetwork
pub mod InputSession
pub mod FeedbackPath
pub mod FeedbackSession
pub mod VideoPath
pub mod Ports
