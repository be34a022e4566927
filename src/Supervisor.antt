-- ===== src/Supervisor.antt =====
-- The operational supervisor of apps/api/src/modules/runtime/supervisor: the latches of
-- coordination, and the dispatcher that asks the CEO to coordinate.
pub mod Types
pub mod Latch
pub mod Keys
pub mod Calls
pub mod Exclusion
pub mod Reclaim
pub mod Recovery
pub mod Recovered
pub mod PolicyEngine
pub mod Asked
pub mod Requests
pub mod Dispatcher
pub mod Objective
pub mod Tags
pub mod Dispatch
pub mod Cycle
mod Examples
