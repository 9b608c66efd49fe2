-- ===== src/Url.antt =====
-- src/utils/urlsplit.c. Children: Percent, the encoding and decoding of single bytes; Encode and
-- Decode, its round trip; Span, the segments of a URL; Split, the components of a URL.
pub mod Percent
pub mod Encode
pub mod Decode
pub mod Span
pub mod Split
pub mod Join
