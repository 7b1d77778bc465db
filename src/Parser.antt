-- ===== src/Parser.antt =====
-- proxyparser: proxy formats, compiled once, and the parser that follows them.
pub mod Errors
pub mod Format
pub mod Field
pub mod Strict
pub mod Generic
pub mod Total
pub mod Sound
pub mod RoundTrip
