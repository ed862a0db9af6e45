-- ===== src/Worker.antt =====
-- The workers that read the events from their queues: payment-worker, fraud-detector and
-- notification-worker of stampede/apps, with internal/dedup.
pub mod Dedup
pub mod Payment
pub mod Fraud
pub mod Notification
pub mod Start
mod Tests
