-- ===== src/Bson.antt =====
-- src/utils/bson.c, in the modules below.
pub mod Memory
pub mod Types
pub mod Write
pub mod Parts
pub mod Read
pub mod Layout
pub mod Append
pub mod Scan
pub mod Place
pub mod Find
pub mod Counting
