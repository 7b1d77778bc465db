-- ===== src/Proxy.antt =====
-- proxy.go: the proxy model and its validation.
pub mod Scheme
pub mod Port
pub mod Credentials
pub mod Netip
pub mod Host
pub mod Split
pub mod Record
pub mod Validate
pub mod Url
