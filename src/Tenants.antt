-- ===== src/Tenants.antt =====
-- The tenants page of the platform administrator (pages/tenants/TenantsPage.tsx).
pub mod Provision
pub mod Page
pub mod Edits
pub mod Dialogs
mod Tests
