-- ===== src/Auth.antt =====
-- notification-admin-ui/src/auth: who is signed in and what they may do.
pub mod Permissions
pub mod Grants
pub mod Tests
