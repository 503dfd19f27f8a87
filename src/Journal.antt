-- ===== src/Journal.antt =====
-- src/ump/journal.py: what a robot remembers of the assignments that it was sent. SHA-256 over the
-- JSON text of a document is the parameter `digest`.
pub mod Claim
pub mod Durable
pub mod Memory
mod Tests
