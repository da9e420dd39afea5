-- ===== src/Protocol.antt =====
-- src/protocol: the WPS application protocol.
pub mod Pako
pub mod Messages
pub mod Framing
pub mod Narrowing
pub mod Codec
