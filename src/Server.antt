-- ===== src/Server.antt =====
-- The server: packages/server/src/robot_jsonrpcremote_server.
pub mod Runner
pub mod Process
pub mod Endpoint
pub mod Library
pub mod Keyword
