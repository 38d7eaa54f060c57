-- ===== src/Shell.antt =====
-- The frame round every page: the route table and the side bar.
pub mod Routes
pub mod Nav
pub mod Guards
pub mod SignIn
mod Tests
