-- ===== src/TmqSession.antt =====
-- controller/ws/tmq/tmq.go: the consumer of a websocket session, its handlers as critical sections
-- and their interleavings with each other and with `Close`.
pub mod State
pub mod Subscribe
pub mod Poll
pub mod Offsets
pub mod Fetch
pub mod Closing
pub mod System
pub mod Buffers
pub mod Blocks
pub mod Ends
pub mod Live
pub mod Mutex
pub mod Runs
