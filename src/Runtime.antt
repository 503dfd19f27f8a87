-- ===== src/Runtime.antt =====
-- src/ump/runtime.py: the robot's side of the protocol.
pub mod Registry
pub mod Participant
mod Tests
