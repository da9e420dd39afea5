-- ===== src/Js.antt =====
-- What the program uses of JavaScript's and Node's own library: JSON, UTF-8 and base64.
pub mod Json
pub mod Utf8
pub mod Base64
pub mod Trim
pub mod Case
