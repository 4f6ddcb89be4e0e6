-- ===== src/Cache.antt =====
-- services/cache.go: the disk cache.
pub mod Shards
pub mod Names
pub mod Files
pub mod Access
