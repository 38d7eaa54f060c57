-- ===== src/TenantDetail.antt =====
-- notification-admin-ui/src/pages/tenants/TenantDetailPage.tsx: one tenant, in tabs.
pub mod Cards
pub mod Page
pub mod Rows
pub mod Tabs
pub mod Guide
mod Tests
