-- ===== src/Proto/Stream.antt =====
-- What pk_format_reply() writes, pk_parser_parse() reads (libpagekite/pkproto.c).
pub mod HeaderLines
pub mod FrameHeader
pub mod Whole
pub mod Reply
pub mod Many
