-- ===== src/Queue/Refinement.antt =====
-- Every handler of the queue only writes as the state machine of `Lifecycle` allows.
pub mod Rules
pub mod Settling
pub mod Handlers
pub mod Recovering
