-- ===== src/Labels.antt =====
-- pkg/labels: the transformations of label values.
pub mod Config
pub mod Transform
pub mod Values
pub mod Outcomes
pub mod Hashed
