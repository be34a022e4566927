-- ===== src/Health.antt =====
-- The package packages/operational-health: rules over measured values, alerts, the snapshot of
-- health, the policy on failures, and the maintenance.
mod Rules
mod Alerts
mod Service
mod Policy
mod Maintenance
mod Levels
mod Publishing
mod Isolation
mod Steps
mod Examples
