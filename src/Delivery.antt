-- ===== src/Delivery.antt =====
-- src/ump/delivery.py: the durable queues between processes, `SqliteOutbox` and `SqliteInbox`.
pub mod Outbox
mod Tests
