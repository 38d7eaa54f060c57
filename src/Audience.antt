-- ===== src/Audience.antt =====
-- The pages of a tenant's recipients and campaigns.
pub mod Contacts
pub mod Saving
pub mod Campaigns
mod Tests
