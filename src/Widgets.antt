-- ===== src/Widgets.antt =====
-- The shared widgets of the console: toasts, the confirmation dialog, table pages, status badges.
pub mod Toast
pub mod Confirm
pub mod Paging
pub mod Badge
pub mod Select
mod Tests
