-- ===== src/Signaling.antt =====
-- internal/signaling/hub.go: one channel for each peer, and messages between the two of a session.
pub mod Hub
pub mod Routing
pub mod Allowance
pub mod Channels
pub mod Tests
