-- ===== src/Rhp.antt =====
-- src/rhp.
pub mod Wire
pub mod Envelope
pub mod Deframer
pub mod Connection
pub mod Requests
pub mod Link
