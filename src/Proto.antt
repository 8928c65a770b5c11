-- ===== src/Proto.antt =====
-- libpagekite/pkproto.c and pkproto.h: the tunnel protocol.
pub mod Chunk
pub mod Header
pub mod Kite
pub mod Response
pub mod Sign
pub mod Format
pub mod Parser
pub mod Stream
