-- ===== src/Client.antt =====
-- The client library: src/JsonRpcRemote/__init__.py.
pub mod LogSink
pub mod Log
pub mod Failure
pub mod Retry
pub mod Keywords
pub mod Session
pub mod Changes
pub mod Call
pub mod Connect
