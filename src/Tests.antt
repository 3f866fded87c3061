-- ===== src/Tests.antt =====
-- The theorems at concrete inputs, and runs of the definitions.
pub mod Feed
mod Arguments
mod Book
mod Pooled
mod Ring
mod Pool
mod Connection
mod Latencies
mod Queue
mod Benchmarks
mod Pipeline
mod Threads
mod Feeds
mod Setup
mod Reports
