-- ===== src/Tests.antt =====
-- The theorems applied at concrete inputs.
pub mod Streams
pub mod Queues
pub mod Texts
pub mod Tables
pub mod Flows
pub mod Filters
pub mod Sources
pub mod Captures
pub mod Models
pub mod Dates
pub mod Model
pub mod Clients
