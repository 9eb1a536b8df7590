-- ===== src/Pvss.antt =====
-- include/pvss/: the publicly verifiable secret sharing that the beacon is built on. Defs holds the
-- data, and Deal, Aggregate and Reconstruct the methods of `Context`. Streams writes
-- and reads them, and Factory makes the contexts.
pub mod Defs
pub mod Deal
pub mod Aggregate
pub mod Reconstruct
pub mod Streams
pub mod Factory
