-- ===== src/Execution.antt =====
-- packages/execution-engine: a plan's actions, run one after another through policy, registry and
-- executor.
pub mod Model
pub mod Engine
pub mod Plan
pub mod Status
pub mod Report
pub mod Refusal
mod Examples
