-- ===== src/Actions.antt =====
-- packages/action-runtime: which employee may do which controlled action, and the audit of each.
pub mod Policy
pub mod Ledger
pub mod Executor
pub mod Records
pub mod Audit
mod Examples
