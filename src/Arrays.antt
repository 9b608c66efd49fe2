-- ===== src/Arrays.antt =====
-- src/dlite-arrays.c, in the modules below.
pub mod Array
pub mod Layout
pub mod Iterator
pub mod Views
