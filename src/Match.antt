-- ===== src/Match.antt =====
-- tcc/ext/match.c: the packet matcher that runs the rules of tcc's external interface.
pub mod Fields
pub mod Bits
pub mod Extract
pub mod Buckets
pub mod Pour
pub mod Refill
pub mod Rules
pub mod Sections
pub mod Examples
pub mod Conform
pub mod Parsed
pub mod Packets
pub mod Policed
