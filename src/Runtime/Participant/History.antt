-- ===== src/Runtime/Participant/History.antt =====
-- The life of one participant: what it receives, what its threads do, what its operators write into
-- its stores, and restarts, in any order.
pub mod Quiet
pub mod Requests
pub mod Admission
pub mod Once
use ump.Prelude.{ℕ, String, Bool, ◌&&◌, Option, none, some, List, [], ◌∷◌, ◌==◌}
use ump.Prelude.Int.{ℤ}
use ump.Models.Json.{Json}
use ump.Models.Status.{AssignmentStatus}
use ump.Models.Step.{Assignment}
use ump.Models.Lease.{AuthorityLease}
use ump.Authority.Store.{AuthorityStore, grant, revoke, open_store}
use ump.Journal.Durable.{Journal, resolve_unknown, restart, empty_journal}
use ump.Transport.Envelope.{Envelope}
use ump.Runtime.Participant.{Participant, Safety, Conditions, receive_assignment}
use ump.Runtime.Participant.Direct.{receive_direct}
use ump.Runtime.Participant.Execution.{Reply, publish_state, start_job, finish_job}
use ump.Runtime.Participant.Requests.{receive_query, receive_cancellation}

-- An assignment message is `assigned` to the executor, or `executed` at once by a participant without
-- one. `starting` and `finishing` pick a thread by its place; `restarting` opens the stores again for a
-- new session, with whatever the new one calls itself.
pub data Event : Type 0 where
  assigned : Conditions → Envelope → Event
  executed : Reply → Conditions → Envelope → Event
  queried : ℤ → Envelope → Event
  cancelling : Option (Bool × String) → ℤ → Envelope → Event
  starting : ℕ → Event
  finishing : ℕ → Reply → Event
  publishing : Option Safety → ℤ → Option String → Event
  granting : AuthorityLease → ℤ → Event
  revoking : String → ℤ → ℤ → String → Event
  resolving : String → AssignmentStatus → String → String → String → ℤ → Event
  restarting : String → Event

-- a new process on the stores of the old: `Participant.__init__`
unfoldable pub reopen : String → Participant → Participant
reopen session_id p = record p {
  session_id = session_id;
  operational_sequence = 0;
  safety_sequence = 0;
  last_published_safety = none;
  journal = restart p.journal;
  queued = [];
  running = [];
}

-- The participant after an event, whether its handler returned or raised.
unfoldable pub step : (Json → String) → Event → Participant → Participant
unfolding reopen
step digest (assigned c envelope) p = (receive_assignment digest c envelope p).0
step digest (executed reply c envelope) p = (receive_direct digest reply c envelope p).0
step digest (queried now envelope) p = (receive_query now envelope p).0
step digest (cancelling answer now envelope) p =
    (receive_cancellation digest answer now envelope p).0
step digest (starting n) p = start_job n p
step digest (finishing n reply) p = (finish_job digest n reply p).0
step digest (publishing s now correlation_id) p = (publish_state s now correlation_id p).0
step digest (granting lease now) p = record p { leases = (grant lease now p.leases).1 }
step digest (revoking lease_id revision now reason) p = record p {
  leases = (revoke lease_id revision now reason p.leases).1;
}
step digest (resolving id status description resolver evidence now) p = record p {
  journal = (resolve_unknown id status description resolver evidence now p.journal).1;
}
step digest (restarting session_id) p = reopen session_id p

unfoldable pub run : (Json → String) → List Event → Participant → Participant
run digest [] p = p
run digest (e ∷ events) p = run digest events (step digest e p)

-- a participant on empty stores
unfoldable pub start_up : String → String → Participant
start_up robot_id session_id = record {
  robot_id = robot_id;
  session_id = session_id;
  operational_sequence = 0;
  safety_sequence = 0;
  last_published_safety = none;
  leases = open_store robot_id;
  journal = empty_journal;
  queued = [];
  running = [];
  accept_calls = [];
  sent = [];
}
