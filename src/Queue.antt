-- ===== src/Queue.antt =====
-- The mission queue: apps/api/src/modules/runtime/mission-queue.ts with its neighbours.
pub mod Model
pub mod Contract
pub mod Rows
pub mod Select
pub mod Client
pub mod Monad
pub mod Enqueue
pub mod Claim
pub mod Settle
pub mod Results
pub mod Consolidate
pub mod Recovery
pub mod Lifecycle
pub mod Refinement
pub mod Fencing
pub mod System
pub mod InMemory
mod Examples
