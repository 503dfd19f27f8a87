-- ===== src/Authority/History.antt =====
-- Histories of calls of the authority store, and what holds after every one of them.
pub mod Rows
pub mod Revoked
pub mod Trail
use ump.Prelude.{String, List, [], ◌∷◌}
use ump.Prelude.Int.{ℤ}
use ump.Models.Lease.{AuthorityLease}
use ump.Authority.Store.{AuthorityStore, grant, revoke}

-- One call of a method that writes, with its arguments.
pub data Call : Type 0 where
  granting : AuthorityLease → ℤ → Call
  revoking : String → ℤ → ℤ → String → Call

-- The store after a call, whether it returned or raised.
unfoldable pub perform : Call → AuthorityStore → AuthorityStore
perform (granting lease now_ms) s = (grant lease now_ms s).1
perform (revoking lease_id revision now_ms reason) s = (revoke lease_id revision now_ms reason s).1

unfoldable pub perform_all : List Call → AuthorityStore → AuthorityStore
perform_all [] s = s
perform_all (c ∷ calls) s = perform_all calls (perform c s)
