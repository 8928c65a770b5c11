-- ===== src/Tests.antt =====
-- The source's own tests that run on the model, and an example for each theorem with conditions.
pub mod Proto
pub mod Format
pub mod Send
pub mod Manager
pub mod Utils
pub mod Tunnels
pub mod Streams
pub mod Kite
pub mod Response
pub mod Frontends
pub mod Events
pub mod Sign
pub mod Jobs
