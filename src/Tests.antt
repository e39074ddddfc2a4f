-- ===== src/Tests.antt =====
-- The theorems at concrete inputs.
pub mod Peer
pub mod Reader
pub mod Server
pub mod Client
pub mod Json
pub mod Session
pub mod Process
pub mod Endpoint
pub mod AsJson
pub mod Tasks
pub mod Connect
pub mod Keyword
