-- ===== src/Transport.antt =====
-- crates/transport: the status code of an error response, and the framed wire.
pub mod Status
pub mod Codec
pub mod Stream
pub mod Wire
