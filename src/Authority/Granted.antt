-- ===== src/Authority/Granted.antt =====
-- `authorize` after `grant`, in authority.py.
use ump.Prelude.{◌≡◌, refl, true, Option, none, some, ok, elem, arith, eq_iff, eq_refl, sym}
use ump.Prelude.Int.{ℤ, ◌+ℤ◌, ◌≤ℤ◌, ◌<ℤ◌}
use ump.Prelude.Table.{find, find-key}
use ump.Models.Status.{active}
use ump.Models.Lease.{AuthorityLease, lease_post_init}
use ump.Models.Step.{Assignment}
use ump.Authority.Store.{
  LeaseRow, lease_key, AuthorityStore, check_renewal, upsert, grant, authorize,
}
use ump.Authority.Authorize.{authorize_iff}
use ump.Authority.History.Rows.{granted, find-upsert}

-- a renewal keeps the identity columns, and the checks say that they are the lease's own
granted_lease :
    (lease : AuthorityLease) (now_ms : ℤ) (o : Option LeaseRow)
    → ((row : LeaseRow) → o ≡ some row → lease_key row ≡ lease.lease_id)
    → check_renewal lease o ≡ ok tt
    → (granted lease now_ms o).lease ≡ lease
unfolding check_renewal
granted_lease lease t none keyed h = refl
granted_lease lease t (some row) keyed h = ground (
  arith,
  keyed row refl,
  eq_iff row.lease.grantor_robot_id lease.grantor_robot_id,
  eq_iff row.lease.issuer_id lease.issuer_id,
)

grant_effect :
    (lease : AuthorityLease) (now_ms : ℤ) (s : AuthorityStore)
    → (grant lease now_ms s).0 ≡ ok tt
    → (check_renewal lease (find lease_key lease.lease_id s.leases) ≡ ok tt)
      × ((grant lease now_ms s).1.leases ≡ upsert lease now_ms s.leases)
      × ((grant lease now_ms s).1.robot_id ≡ s.robot_id)
      × (lease.status ≡ active)
unfolding grant
grant_effect lease t s h = ground arith

-- After a grant that returned, a call of `authorize` by the lease's issuer, for this robot, with an
-- assignment that presents the lease and asks for a capability in its scope, returns exactly the
-- granted lease, new or renewed, at every time that lies inside the window by at least the clock
-- uncertainty.
pub authorize-grant :
    (lease : AuthorityLease) (now_ms t : ℤ) (s : AuthorityStore) (a : Assignment)
    → lease_post_init lease ≡ ok tt
    → (grant lease now_ms s).0 ≡ ok tt
    → a.authority_lease_id ≡ some lease.lease_id
    → elem a.step.capability lease.capabilities ≡ true
    → (lease.issued_at_ms +ℤ lease.maximum_clock_uncertainty_ms) ≤ℤ t
    → (t +ℤ lease.maximum_clock_uncertainty_ms) <ℤ lease.expires_at_ms
    → authorize lease.issuer_id s.robot_id a t (grant lease now_ms s).1 ≡ ok lease
authorize-grant lease now t s a valid done presents scope opened not_closed =
    let (passed, rows, robot, is_active) = grant_effect lease now s done in
    let old = find lease_key lease.lease_id s.leases in
    (authorize_iff lease.issuer_id s.robot_id a t (grant lease now s).1 lease).1 (record {
      here = sym robot;
      row = granted lease now old;
      presents = presents;
      stored = rw rows (rw (find-upsert, eq_refl lease.lease_id));
      same =
          granted_lease lease now old (λ row e. find-key lease_key lease.lease_id s.leases row e)
            passed;
      well_formed = valid;
      covers = record {
        active_status = is_active;
        held = refl;
        in_scope = scope;
        opened = opened;
        not_closed = not_closed;
      };
    })
