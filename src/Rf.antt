-- ===== src/Rf.antt =====
-- src/heads/rf.
pub mod Server
pub mod Session
pub mod Head
