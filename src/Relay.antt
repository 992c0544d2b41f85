-- ===== src/Relay.antt =====
-- src/relay.rs: the relay's tables, its handlers and what they keep.
pub mod Db
pub mod Handler
pub mod Auth
pub mod Lifecycle
pub mod Shares
pub mod Log
pub mod Views
pub mod Rows
pub mod Moves
pub mod Revocation
pub mod Access
pub mod Replay
pub mod Cursor
pub mod Resume
pub mod Requests
