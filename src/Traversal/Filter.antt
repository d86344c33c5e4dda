-- ===== src/Traversal/Filter.antt =====
-- pkg/traversal/scope_filter.go: what belongs to the platform, and which resources and references the
-- traversal keeps.
pub mod Platform
pub mod Scope
pub mod Patterns
pub mod Included
pub mod Statistics
pub mod PlatformOnly
