-- ===== src/Utils.antt =====
-- libpagekite/pkutils.c.
pub mod Lines
pub mod Search
pub mod Printable
pub mod Hash
