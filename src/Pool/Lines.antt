-- ===== src/Pool/Lines.antt =====
-- proxypool.go: the lines of a block are the lines of the file that start in it.
pub mod Framed
pub mod Spans
pub mod Found
pub mod Ended
pub mod Extension
pub mod Marks
pub mod Block
pub mod Texts
pub mod Reference
pub mod Starts
pub mod Loaded
pub mod Reads
pub mod Load
pub mod Whole
pub mod Loading
pub mod Takes
pub mod Shares
pub mod Keeps
pub mod Steps
pub mod Runs
pub mod Trail
pub mod Cycles
pub mod Readers
pub mod Ordered
pub mod Limited
pub mod Failed
pub mod Errors
pub mod Finishes
pub mod Complete
