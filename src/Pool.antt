-- ===== src/Pool.antt =====
-- proxypool: iteration over newline-delimited proxy files.
pub mod Modular
pub mod Permutation
pub mod Sizes
pub mod Open
pub mod State
pub mod Extend
pub mod Block
pub mod Walk
pub mod Batch
pub mod Lines
pub mod Shards
pub mod Capacity
pub mod Indexing
pub mod HandOver
pub mod Calls
pub mod Rounds
pub mod Ends
pub mod Extends
pub mod Loads
pub mod Opening
pub mod Schedule
pub mod BatchOrder
pub mod BatchStops
pub mod Limits
