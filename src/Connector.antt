-- ===== src/Connector.antt =====
-- The connector, internal/protocol/connector.go with config.go: how a client finds the leader.
pub mod Config
pub mod Handshake
pub mod Attempt
pub mod Connect
pub mod Delay
pub mod Progress
pub mod Ends
pub mod Closing
pub mod Table
pub mod Leaks
pub mod Steps
pub mod Registration
pub mod Served
pub mod Search
