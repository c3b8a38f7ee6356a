-- ===== src/Buffer.antt =====
-- internal/buffer: the reader and the writer of protocol messages, over a connection.
pub mod Words
pub mod Stream
pub mod Failures
pub mod Reader
pub mod Writer
