-- ===== src/Discovery.antt =====
-- pkg/discovery: how resources are selected.
pub mod Expressions
