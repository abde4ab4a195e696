-- ===== src/Tests.antt =====
-- The development's examples: sample data, runs on it, and each theorem at a concrete input.
pub mod Samples
pub mod Scheduling
pub mod Peers
pub mod Codecs
pub mod Discoveries
pub mod Workers
pub mod Greetings
pub mod Backends
pub mod Runtimes
