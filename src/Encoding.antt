-- ===== src/Encoding.antt =====
-- The encodings of Python's standard library that the backend uses on bytes and texts. Bytes are
-- numbers below 256; a text that is encoded is its bytes in UTF-8.
pub mod Base64
pub mod Utf8
pub mod IntText
