-- ===== src/Util.antt =====
-- src/util.
pub mod Emitter
pub mod Log
