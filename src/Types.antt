-- ===== src/Types.antt =====
-- src/dlite-type.c: the types of properties, their names and their place in a struct.
pub mod Table
pub mod Names
pub mod Decimal
pub mod RoundTrip
pub mod Prefixes
pub mod Declarations
pub mod Dtypes
pub mod Alignment
pub mod Padding
pub mod Members
