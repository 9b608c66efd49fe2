-- ===== src/Tests.antt =====
-- Runs of the modelled code, and its theorems at concrete inputs.
mod Instances
mod Store
mod Strings
mod Arrays
mod StringLists
mod Collections
mod Documents
mod Calculator
mod StoredInstances
mod Types
mod Declarations
mod Mappings
mod Urls
mod JsonStores
mod Versions
