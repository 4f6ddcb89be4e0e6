-- ===== src/Tests.antt =====
-- The theorems at concrete inputs, and runs of the definitions.
mod Requests
mod Chunks
mod Runs
mod Serving
mod Fetching
mod Fixture
mod Caching
mod Ahead
mod Wiring
mod Systems
mod Pipelines
mod Programs
mod Tidying
mod Sweeping
