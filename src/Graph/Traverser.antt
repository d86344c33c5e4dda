-- ===== src/Graph/Traverser.antt =====
-- The traverser, pkg/graph/traverser.go.
pub mod AllPaths
pub mod Visits
pub mod DepthFirst
pub mod BreadthFirst
