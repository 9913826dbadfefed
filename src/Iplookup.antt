-- ===== src/Iplookup.antt =====
-- iplookup/: a CIDR store over one radix tree for each address family.
pub mod Address
pub mod Tree
pub mod Helper
mod Tests
