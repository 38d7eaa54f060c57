-- ===== src/Settings.antt =====
-- The tenant settings page (pages/settings/SettingsPage.tsx).
pub mod Page
pub mod Saving
mod Tests
