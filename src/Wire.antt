-- ===== src/Wire.antt =====
-- The package wire: what is written to a client, the data writer, the handshake and the commands.
pub mod Response
pub mod Context
pub mod Row
pub mod DataWriter
pub mod Cache
pub mod Server
pub mod Query
pub mod Extended
pub mod Command
pub mod Auth
pub mod Handshake
pub mod Serve
pub mod Options
pub mod Session
pub mod Accept
