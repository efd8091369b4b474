-- ===== src/Session.antt =====
-- internal/session/session.go: who is trying to reach whom, and how far they got.
pub mod Record
pub mod Store
pub mod Steps
pub mod Ops
pub mod Rows
pub mod Invariant
pub mod Finish
pub mod Changes
pub mod Settling
pub mod Shrinking
pub mod Rooms
pub mod Trimming
pub mod Opening
pub mod Reporting
pub mod Closing
pub mod Outcomes
pub mod Reports
pub mod Loops
pub mod Reaped
pub mod Keys
pub mod History
pub mod Final
pub mod Pairing
mod Tests
