-- ===== src/Peer.antt =====
-- The JSON-RPC peer: packages/jsonrpcpeer/src/jsonrpcpeer/peer.py.
pub mod Message
pub mod State
pub mod Register
pub mod Responses
pub mod Dispatch
pub mod Send
pub mod Handle
pub mod Requests
pub mod Stream
pub mod Reader
pub mod Lifecycle
pub mod Endpoint
pub mod Tasks
pub mod Session
