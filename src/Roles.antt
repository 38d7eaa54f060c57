-- ===== src/Roles.antt =====
-- notification-admin-ui/src/pages/roles/RolesPage.tsx: roles and the permissions that they hold.
pub mod Grouping
pub mod Page
pub mod Edits
pub mod Toolbar
mod Tests
