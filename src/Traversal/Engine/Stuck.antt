-- ===== src/Traversal/Engine/Stuck.antt =====
-- `ExecuteTransitiveDiscovery` of engine.go without a place for a goroutine.
