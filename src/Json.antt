-- ===== src/Json.antt =====
-- The conversion between JSON and Python objects: packages/jsonrpcpeer/src/jsonrpcpeer/json_helpers.py.
pub mod Case
pub mod Types
pub mod Handlers
pub mod Classes
pub mod FromDict
pub mod Fits
pub mod Sound
pub mod Validate
pub mod AsJson
pub mod AsDict
