-- ===== src/Access.antt =====
-- The API keys page (pages/api-keys/ApiKeysPage.tsx).
pub mod Page
pub mod Naming
mod Tests
