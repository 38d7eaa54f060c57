-- ===== src/Api.antt =====
-- notification-admin-ui/src/api/client.ts: requests to the server, the session in local storage.
pub mod Errors
pub mod Session
pub mod Query
pub mod Retry
pub mod Endless
pub mod Tests
