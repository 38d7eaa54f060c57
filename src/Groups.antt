-- ===== src/Groups.antt =====
-- The contact groups page (pages/groups/GroupsPage.tsx).
pub mod Page
pub mod Members
pub mod Runs
mod Tests
