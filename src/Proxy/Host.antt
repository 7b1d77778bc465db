-- ===== src/Proxy/Host.antt =====
-- proxy.go: hosts.
pub mod Defs
pub mod Octets
pub mod Names
pub mod Valid
