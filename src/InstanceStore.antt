-- ===== src/InstanceStore.antt =====
-- src/dlite-store.c: the store of instances. The conversion of ids to UUIDs, which takes a digest, is
-- a parameter.
pub mod Store
pub mod Balance
