-- ===== src/Orchestration.antt =====
-- packages/orchestration-engine: the loop that drives an objective through cycles of runtime and
-- execution, its policies, and the engine around it.
pub mod Model
pub mod Policies
pub mod Effects
pub mod Loop
pub mod Engine
pub mod Meets
pub mod Cycles
pub mod Bounds
pub mod Termination
mod Examples
