-- ===== src/Strutils.antt =====
-- src/utils/strutils.c, in the modules below.
pub mod Append
pub mod Buffer
pub mod Quote
pub mod Escape
pub mod RoundTrip
pub mod StringList
pub mod ListLimit
pub mod Category
pub mod Hex
pub mod Version
pub mod VersionOrder
pub mod VersionLoop
