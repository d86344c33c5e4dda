-- ===== src/Graph/Cycles.antt =====
-- The cycle detector, pkg/graph/cycle_detector.go.
pub mod HasCycle
pub mod Visited
pub mod Search
pub mod Decides
pub mod Detect
