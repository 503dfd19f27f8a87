-- ===== src/Runtime/Registry.antt =====
-- `Registry` of runtime.py: what a coordinator knows of its peers. Of a robot's state the model
-- keeps what the registry and its clients read; the documents of manifests and states are decoded
-- by code that is not modelled, and the decoded value is an argument.
pub mod Context
use ump.Prelude.{
  String, Bool, true, false, not, ◌&&◌, ◌||◌, Option, none, some, is_some, List, [], ◌∷◌, ◌++◌,
  ◌==◌, if◌then◌else◌,
}
use ump.Prelude.Int.{ℤ, pos, ◌-ℤ◌, leb_ℤ, ltb_ℤ}
use ump.Prelude.Table.{find, select}
use ump.Models.Json.{Json}

pub data Availability : Type 0 where
  available busy degraded unavailable : Availability

pub record Capability : Type 0 where
  pub name : String
  pub description : String
  pub input_schema : Json
  pub output_schema : Json
  pub availability : Availability

pub record RobotManifest : Type 0 where
  pub robot_id : String
  pub manufacturer : String
  pub model : String
  pub robot_class : String
  pub capabilities : List Capability
  pub adapter_version : String

abbrev pub capability_name : Capability → String
capability_name c = c.name

-- `RobotManifest.capability`
unfoldable pub capability : String → RobotManifest → Option Capability
unfolding find
capability name m = find capability_name name m.capabilities

-- `RobotState.fresh_for_ms`
pub record RobotState : Type 0 where
  pub fresh_for_ms : ℤ

-- An entry of the dict `Registry.peers`, under the key `robot_id`.
pub record PeerView : Type 0 where
  pub robot_id : String
  pub manifest : Option RobotManifest
  pub state : Option RobotState
  pub state_timestamp_ms : ℤ
  pub session_id : Option String

abbrev pub peer_key : PeerView → String
peer_key p = p.robot_id

abbrev pub Registry : Type 0
Registry = List PeerView

-- `self.peers.get(robot_id)`
abbrev pub peer_of : String → Registry → Option PeerView
peer_of = find peer_key

abbrev pub state_is_fresh : Option RobotState → ℤ → ℤ → Bool
state_is_fresh none timestamp_ms now_ms = false
state_is_fresh (some s) timestamp_ms now_ms = leb_ℤ (now_ms -ℤ timestamp_ms) s.fresh_for_ms

abbrev pub peer_is_fresh : Option PeerView → ℤ → Bool
peer_is_fresh none now_ms = false
peer_is_fresh (some p) now_ms = state_is_fresh p.state p.state_timestamp_ms now_ms

-- `is_fresh`
unfoldable pub is_fresh : String → ℤ → Registry → Bool
unfolding find ◌-ℤ◌
is_fresh robot_id now_ms peers = peer_is_fresh (peer_of robot_id peers) now_ms

abbrev pub state_is_missing : Option RobotState → ℤ → ℤ → Bool
state_is_missing none timestamp_ms now_ms = true
state_is_missing (some s) timestamp_ms now_ms = ltb_ℤ s.fresh_for_ms (now_ms -ℤ timestamp_ms)

abbrev pub lacks_context : Option PeerView → ℤ → Bool
lacks_context none now_ms = true
lacks_context (some p) now_ms =
    not (is_some p.manifest) || state_is_missing p.state p.state_timestamp_ms now_ms

-- `missing_context`
unfoldable pub missing_context : List String → ℤ → Registry → List String
unfolding find ◌-ℤ◌ select
missing_context participant_ids now_ms peers =
    select (λ robot_id. lacks_context (peer_of robot_id peers) now_ms) participant_ids
