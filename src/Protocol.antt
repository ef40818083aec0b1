-- ===== src/Protocol.antt =====
-- The wire protocol of internal/protocol: its constants, its requests and responses.
pub mod Constants
pub mod Request
pub mod Schema
pub mod Encoding
pub mod Response
pub mod Decoding
pub mod Connection
pub mod Delivery
pub mod Failing
pub mod Session
pub mod Exchange
pub mod Holds
pub mod Keeping
pub mod Total
pub mod Progress
