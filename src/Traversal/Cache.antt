-- ===== src/Traversal/Cache.antt =====
-- The caches of pkg/traversal/cache.go.
pub mod Entry
pub mod Lru
pub mod Ttl
