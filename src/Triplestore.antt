-- ===== src/Triplestore.antt =====
-- src/triplestore-builtin.c and src/triplestore.c, in the modules below.
pub mod Store
pub mod Update
pub mod Invariant
pub mod Remove
pub mod Compact
pub mod Release
pub mod Add
pub mod Search
pub mod Value
pub mod Refinement
pub mod Defects
pub mod Datatypes
