-- ===== src/Transport.antt =====
-- src/dakv/transport: frames over a byte stream, the data server and its client.
pub mod Struct
pub mod Protocol
pub mod Socket
pub mod DataServer
pub mod DataClient
pub mod Channels
pub mod Throttling
