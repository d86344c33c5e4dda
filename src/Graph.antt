-- ===== src/Graph.antt =====
-- pkg/graph: the resource graph, its builder, its cycle detector and its traverser.
pub mod Types
pub mod Builder
pub mod Walks
pub mod Cycles
pub mod Traverser
