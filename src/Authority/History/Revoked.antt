-- ===== src/Authority/History/Revoked.antt =====
-- Revoked leases over histories of the store of authority.py.
use ump.Prelude.{String, ◌≡◌, ◌≢◌, some, List, [], ◌∷◌, ok, arith, eq_iff}
use ump.Prelude.Int.{ℤ, pos, ◌+ℤ◌}
use ump.Prelude.Table.{find}
use ump.Models.Status.{revoked}
use ump.Models.Lease.{AuthorityLease}
use ump.Models.Step.{Assignment}
use ump.Authority.Store.{LeaseRow, lease_key, AuthorityStore, grant, revoke, authorize}
use ump.Authority.Authorize.{authorize_iff}
use ump.Authority.History.{Call, granting, revoking, perform, perform_all}
use ump.Authority.History.Rows.{find-upsert, find-set_revoked}

module _ (k : String) (row : LeaseRow) (is_revoked : row.lease.status ≡ revoked) where
  perform-revoked :
      (c : Call) (s : AuthorityStore)
      → find lease_key k s.leases ≡ some row
      → find lease_key k (perform c s).leases ≡ some row
  unfolding perform grant revoke
  perform-revoked (granting lease t) s h =
      ground (arith, find-upsert k lease t s.leases, eq_iff lease.lease_id k)
  perform-revoked (revoking lease_id v t reason) s h =
      ground (arith, find-set_revoked k lease_id (v +ℤ pos 1) t s.leases, eq_iff lease_id k)

  -- The row of a revoked lease is the same after any history of grants and revocations: it is never
  -- renewed, reactivated or revoked again.
  pub perform_all-revoked :
      (calls : List Call) (s : AuthorityStore)
      → find lease_key k s.leases ≡ some row
      → find lease_key k (perform_all calls s).leases ≡ some row
  unfolding perform_all
  perform_all-revoked [] s h = h
  perform_all-revoked (c ∷ calls) s h =
      perform_all-revoked calls (perform c s) (perform-revoked c s h)

  -- No assignment that presents a revoked lease is authorized, whatever was called since.
  pub authorize-revoked :
      (calls : List Call) (s : AuthorityStore) (issuer_id robot_id : String) (a : Assignment)
      (now_ms : ℤ) (l : AuthorityLease)
      → find lease_key k s.leases ≡ some row
      → a.authority_lease_id ≡ some k
      → authorize issuer_id robot_id a now_ms (perform_all calls s) ≢ ok l
  authorize-revoked calls s i r a t l h presents returned =
      let now = (authorize_iff i r a t (perform_all calls s) l).0 returned in
      let stays = perform_all-revoked calls s h in
      ground (arith, now.stored, now.presents, now.same, now.covers.active_status, stays)
