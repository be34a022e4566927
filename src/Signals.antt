-- ===== src/Signals.antt =====
-- packages/domain-signals: signals from outside, their ingest and their lifecycle.
pub mod Model
pub mod Store
pub mod Service
pub mod Status
pub mod System
pub mod Delivery
pub mod Registry
pub mod Registered
mod Examples
mod Bridges
