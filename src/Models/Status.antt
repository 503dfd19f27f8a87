-- ===== src/Models/Status.antt =====
-- The enumerations of models.py that the assignment lifecycle uses.
pub data AssignmentStatus : Type 0 where
  accepted succeeded failed rejected cancelled unknown : AssignmentStatus

pub data CancellationStatus : Type 0 where
  accepted rejected already_terminal unknown : CancellationStatus

pub data LeaseStatus : Type 0 where
  active revoked expired : LeaseStatus
