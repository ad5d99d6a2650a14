-- ===== src/FsProtocol.antt =====
-- clientlib/fsprotocol.c: reliable delivery of framesets over unreliable datagrams.
pub mod Fsa
pub mod Types
pub mod Conn
pub mod Transmit
pub mod Receive
pub mod Table
pub mod Control
pub mod Sends
pub mod Keys
pub mod Endpoints
pub mod Entries
pub mod Delivery
pub mod Channel
pub mod Prefix
pub mod Progress
pub mod Closing
pub mod Unacked
