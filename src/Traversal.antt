-- ===== src/Traversal.antt =====
-- pkg/traversal: the caches and the tracker of the traversal engine.
pub mod Cache
pub mod Tracker
pub mod Filter
pub mod Engine
pub mod Batches
