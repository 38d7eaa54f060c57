-- ===== src/Catalogs.antt =====
-- The platform's catalogs: channels, features and queue controls.
pub mod Channels
pub mod Features
pub mod Queues
pub mod Toggles
mod Tests
