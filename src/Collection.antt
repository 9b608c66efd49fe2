-- ===== src/Collection.antt =====
-- src/dlite-collection.c, in the modules below.
pub mod Relations
pub mod Labels
