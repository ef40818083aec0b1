-- ===== src/Examples.antt =====
-- Runs on concrete input, and each theorem at one.
pub mod Sorting
pub mod Roles
pub mod Wire
pub mod Replies
pub mod Stream
pub mod Teller
pub mod Server
pub mod Connector
pub mod Driver
