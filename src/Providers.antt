-- ===== src/Providers.antt =====
-- notification-admin-ui/src/pages/providers/ProvidersPage.tsx: the settings of delivery providers.
pub mod Schemas
pub mod Config
pub mod Page
pub mod Rows
mod Tests
