-- ===== src/Tests.antt =====
-- The definitions on concrete inputs, and the theorems at inputs that meet their hypotheses.
mod Proxies
mod Orders
mod Parsers
mod Pools
mod Blocks
mod Shards
mod Limits
mod Kernels
