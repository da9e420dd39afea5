-- ===== src/Web.antt =====
-- src/heads/web.
pub mod App
pub mod Reads
pub mod Events
