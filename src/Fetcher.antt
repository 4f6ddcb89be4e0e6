-- ===== src/Fetcher.antt =====
-- services/fetcher.go: range requests served through aligned chunks.
pub mod Resolve
pub mod Serve
pub mod Get
pub mod Fetch
pub mod Lookup
pub mod Dispatch
pub mod Node
pub mod Pipeline
