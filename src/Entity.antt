-- ===== src/Entity.antt =====
-- src/dlite-entity.c: the memory of instances.
pub mod Layout
pub mod Segments
pub mod Dims
pub mod Shapes
