-- ===== src/Send.antt =====
-- notification-admin-ui/src/pages/notifications/SendNotificationPage.tsx: composing a notification.
pub mod Template
pub mod Sms
pub mod Form
pub mod Validate
pub mod Shown
pub mod Submit
pub mod Tenancy
pub mod Channels
mod Tests
