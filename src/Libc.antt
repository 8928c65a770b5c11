-- ===== src/Libc.antt =====
-- What the source uses of the C library's formatted input and output.
pub mod Scanf
pub mod Printf
pub mod RoundTrip
pub mod Decimal
unfoldable pub use Scanf.*
unfoldable pub use Printf.*
