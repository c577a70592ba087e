-- ===== src/Reassembly.antt =====
-- src/tcp_reassembly.cpp: the reassembler, part by part.
pub mod Seq
pub mod Segments
pub mod Stream
pub mod Progress
pub mod Gaps
pub mod Overlap
pub mod Header
pub mod Blocklist
pub mod Connection
pub mod Table
pub mod Allowlist
pub mod Expiry
pub mod Conserved
pub mod Capacity
pub mod Eviction
pub mod Behavior
pub mod Scope
pub mod Complete
pub mod Flush
