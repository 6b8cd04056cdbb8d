-- ===== src/Seal/Written.antt =====
-- From what src/lib.rs writes and seals to what src/seal.rs reads without keys.
pub mod Chained
pub mod Revealed
pub mod Gather
pub mod Record
pub mod Accepted
pub mod Reads
pub mod Published
pub mod Entries
pub mod Closing
pub mod Fields
pub mod Sealed
pub mod Grown
mod Tests
