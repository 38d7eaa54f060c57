-- ===== src/Users.antt =====
-- notification-admin-ui/src/pages/users/UsersPage.tsx: creating and editing users.
pub mod Editing
pub mod Page
pub mod Creation
pub mod Query
mod Tests
