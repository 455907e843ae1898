-- ===== src/Notification.antt =====
-- apps/notification-service/src: the e-mails and texts that follow from order and payment events.
pub mod Channels
pub mod Consumer
pub mod Sends
pub mod Contacts
mod Examples
