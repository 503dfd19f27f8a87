-- ===== src/Coordinator.antt =====
-- The coordinator: src/ump/coordinator_store.py, the journal of runs and of the steps that it
-- sends to robots, and the checks of src/ump/collaboration.py on a plan.
pub mod Tables
pub mod Store
pub mod Checks
mod Tests
