-- ===== src/Graph/Builder.antt =====
-- The graph builder, pkg/graph/builder.go: `DefaultGraphBuilder` over an explicit graph.
pub mod Keys
pub mod Defs
pub mod Build
pub mod Validate
pub mod WellFormed
pub mod Preserve
pub mod PreserveEdges
pub mod Built
pub mod Merge
pub mod MergedNodes
pub mod Merged
pub mod Unlinked
