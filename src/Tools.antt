-- ===== src/Tools.antt =====
-- The permissions of packages/tool-runtime/src/tool-permission-policy.ts.
mod Permissions
mod Granted
mod Examples
