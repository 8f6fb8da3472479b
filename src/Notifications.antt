-- ===== src/Notifications.antt =====
-- backend/app/notifications: who is told of a result, with what consent, by which template, and
-- what is queued for sending.
pub mod Policy
pub mod Recipients
pub mod Consents
pub mod Templates
pub mod Render
pub mod Deliveries
pub mod Fallback
