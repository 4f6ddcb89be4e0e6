-- ===== src/Web.antt =====
-- services/web.go: the HTTP front of the cache.
pub mod Range
pub mod Handle
