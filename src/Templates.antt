-- ===== src/Templates.antt =====
-- notification-admin-ui/src/pages/templates/TemplatesPage.tsx: the templates of notifications.
pub mod Markdown
pub mod Page
pub mod Preview
pub mod Saving
mod Tests
