-- ===== src/Tests.antt =====
-- Runs of the models on small inputs, and the theorems at inputs that meet their hypotheses.
mod GraphTests
mod LruTests
mod TtlTests
mod LabelTests
mod TrackerTests
mod FilterTests
mod TraverserTests
mod EngineTests
mod BatchTests
mod ExpressionTests
