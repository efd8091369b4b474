-- ===== src/Transport.antt =====
-- internal/transport: the HTTP handlers, as functions from the parts of a request to the answer.
pub mod Http
pub mod Sessions
pub mod Sharing
pub mod Notices
pub mod Afterwards
pub mod Welcome
pub mod Peers
pub mod Login
pub mod Attempts
pub mod Access
pub mod Keys
pub mod Signal
pub mod Offers
pub mod Relays
pub mod Requests
pub mod Health
mod Tests
