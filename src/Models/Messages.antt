-- ===== src/Models/Messages.antt =====
-- The messages about an assignment in models.py: acknowledgements, queries, cancellations and
-- snapshots.
use ump.Prelude.{String, Option, none, some, Result, Done, ok, ◌>>◌, ◌==◌, guard}
use ump.Models.Outcome.{Outcome}
use ump.Models.Codec.{status_value}
use ump.Models.Text.{ModelError, snapshot_differs, required_text, identifier}
use ump.Models.Status.{AssignmentStatus, CancellationStatus}

pub record AssignmentAcknowledgement : Type 0 where
  pub assignment_id : String
  pub robot_id : String
  pub status : AssignmentStatus
  pub description : String

-- `AssignmentAcknowledgement.__post_init__`
unfoldable pub acknowledgement_post_init : AssignmentAcknowledgement → Result ModelError Done
unfolding identifier required_text
acknowledgement_post_init a = do
  identifier a.assignment_id "assignment_id"
  identifier a.robot_id "robot_id"
  required_text a.description "acknowledgement description" 4096

pub record AssignmentQuery : Type 0 where
  pub assignment_id : String
  pub robot_id : String

-- `AssignmentQuery.__post_init__`
unfoldable pub query_post_init : AssignmentQuery → Result ModelError Done
unfolding identifier
query_post_init q = do identifier q.assignment_id "assignment_id"; identifier q.robot_id "robot_id"

pub record CancellationRequest : Type 0 where
  pub assignment_id : String
  pub robot_id : String
  pub reason : String

-- `CancellationRequest.__post_init__`
unfoldable pub request_post_init : CancellationRequest → Result ModelError Done
unfolding identifier required_text
request_post_init r = do
  identifier r.assignment_id "assignment_id"
  identifier r.robot_id "robot_id"
  required_text r.reason "cancellation reason" 4096

pub record CancellationAcknowledgement : Type 0 where
  pub assignment_id : String
  pub robot_id : String
  pub status : CancellationStatus
  pub description : String

-- `CancellationAcknowledgement.__post_init__`
unfoldable pub cancellation_post_init : CancellationAcknowledgement → Result ModelError Done
unfolding identifier required_text
cancellation_post_init c = do
  identifier c.assignment_id "assignment_id"
  identifier c.robot_id "robot_id"
  required_text c.description "cancellation description" 4096

pub record AssignmentSnapshot : Type 0 where
  pub assignment_id : String
  pub robot_id : String
  pub status : AssignmentStatus
  pub description : String
  pub fingerprint : String
  pub outcome : Option Outcome

-- `self.outcome` against the snapshot that has it
abbrev pub check_outcome : Option Outcome → AssignmentSnapshot → Result ModelError Done
check_outcome none s = ok tt
check_outcome (some o) s = do
  guard (o.assignment_id == s.assignment_id) snapshot_differs
  guard (o.robot_id == s.robot_id) snapshot_differs
  guard (status_value o.status == status_value s.status) snapshot_differs

-- `AssignmentSnapshot.__post_init__`
unfoldable pub snapshot_post_init : AssignmentSnapshot → Result ModelError Done
unfolding identifier required_text
snapshot_post_init s = do
  identifier s.assignment_id "assignment_id"
  identifier s.robot_id "robot_id"
  required_text s.description "snapshot description" 4096
  required_text s.fingerprint "fingerprint" 128
  check_outcome s.outcome s
