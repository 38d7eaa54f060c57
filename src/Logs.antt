-- ===== src/Logs.antt =====
-- The pages that show what the platform did: audit logs, notification logs, the dashboard, and the
-- permissions.
pub mod Audit
pub mod Notifications
pub mod Dashboard
pub mod Permissions
pub mod Shown
mod Tests
