-- ===== src/Journal/Durable/History.antt =====
-- Histories of the durable journal: its calls, and restarts of the process that owns it.
pub mod Rows
pub mod Once
pub mod Resources
pub mod Exclusive
use ump.Prelude.{String, List, [], ◌∷◌}
use ump.Prelude.Int.{ℤ}
use ump.Models.Json.{Json}
use ump.Models.Status.{AssignmentStatus}
use ump.Models.Step.{Assignment}
use ump.Models.Outcome.{Outcome}
use ump.Journal.Durable.{Journal, claim, complete, resolve_unknown, restart}

pub data Call : Type 0 where
  claiming : Assignment → String → ℤ → Call
  completing : Assignment → Outcome → ℤ → Call
  resolving : String → AssignmentStatus → String → String → String → ℤ → Call
  restarting : Call

-- The journal after a call, whether it returned or raised.
unfoldable pub perform : (Json → String) → Call → Journal → Journal
perform digest (claiming a issuer_id now_ms) j = (claim digest a issuer_id now_ms j).1
perform digest (completing a outcome now_ms) j = (complete digest a outcome now_ms j).1
perform digest (resolving assignment_id status description resolver_id evidence now_ms) j =
    (resolve_unknown assignment_id status description resolver_id evidence now_ms j).1
perform digest restarting j = restart j

unfoldable pub perform_all : (Json → String) → List Call → Journal → Journal
perform_all digest [] j = j
perform_all digest (c ∷ calls) j = perform_all digest calls (perform digest c j)
