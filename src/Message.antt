-- ===== src/Message.antt =====
-- The wire message of internal/protocol/message.go, the buffer of internal/protocol/buffer.go, and
-- their writers and readers.
pub mod State
pub mod Action
pub mod Bytes
pub mod Put
pub mod Copy
pub mod Writes
pub mod Grow
pub mod Words
pub mod Text
pub mod Values
pub mod Fields
pub mod Params
pub mod Start
pub mod Binding
pub mod Header
pub mod Get
pub mod Reads
pub mod ReadText
pub mod Rows
pub mod ReadRows
pub mod ReadAll
pub mod Columns
pub mod RoundTrip
pub mod Ending
