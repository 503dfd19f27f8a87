-- ===== src/Authority.antt =====
-- src/ump/authority.py: the robot-local store of authority leases (`SqliteAuthorityStore`), with
-- its audit events, and the read-only listing of leases. The lock and BEGIN IMMEDIATE make each
-- method one step, so that a history of the store is a list of calls.
pub mod Store
pub mod Listing
pub mod Authorize
pub mod History
pub mod Granted
pub mod Reads
mod Tests
