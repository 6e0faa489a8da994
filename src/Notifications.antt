-- ===== src/Notifications.antt =====
-- app/notifications: where a webhook may connect to, and how much of its response is read.
mod Tests
pub mod Ssrf
pub mod Http
pub mod Values
pub mod Outbound
pub mod Webhook
pub mod Pushover
pub mod Schemas
pub mod Providers
