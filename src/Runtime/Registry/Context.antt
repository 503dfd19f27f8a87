-- ===== src/Runtime/Registry/Context.antt =====
-- `missing_context` of runtime.py against `is_fresh`.
use ump.Prelude.{
  String, ◌≡◌, refl, Bool, false, not, ◌&&◌, Option, none, some, is_some, List, [], ◌∷◌, arith,
}
use ump.Prelude.Int.{ℤ}
use ump.Prelude.Table.{select}
use ump.Runtime.Registry.{
  PeerView, RobotState, Registry, peer_of, peer_is_fresh, state_is_fresh, state_is_missing,
  lacks_context, is_fresh, missing_context,
}

-- a manifest and a state that is fresh
abbrev pub has_manifest : Option PeerView → Bool
has_manifest none = false
has_manifest (some p) = is_some p.manifest

missing_state :
    (s : Option RobotState) (t now : ℤ) → state_is_missing s t now ≡ not (state_is_fresh s t now)
missing_state none t now = refl
missing_state (some s) t now = ground arith

lacks_context-has :
    (o : Option PeerView) (now : ℤ)
    → lacks_context o now ≡ not (has_manifest o && peer_is_fresh o now)
lacks_context-has none now = refl
lacks_context-has (some p) now = ground (arith, missing_state p.state p.state_timestamp_ms now)

-- `missing_context` lists, in order, exactly the participants that have no manifest or are not
-- fresh by `is_fresh` at the same time.
pub missing_context-is_fresh :
    (participant_ids : List String) (now : ℤ) (peers : Registry)
    → missing_context participant_ids now peers
      ≡ select
          (λ id. not (has_manifest (peer_of id peers) && is_fresh id now peers))
          participant_ids
unfolding missing_context is_fresh select
missing_context-is_fresh [] now peers = refl
missing_context-is_fresh (id ∷ ids) now peers =
    rw (lacks_context-has (peer_of id peers) now) (rw (missing_context-is_fresh ids now peers) refl)
