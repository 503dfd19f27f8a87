-- ===== src/Authority/Tests.antt =====
-- Runs of the authority store, and its theorems at concrete calls.
use ump.Authority.Reads.{read_authority_lease, read_authority_lease-authorize}
use ump.Prelude.{◌≡◌, ◌≢◌, ◌↔◌, refl, true, none, some, List, [], ◌∷◌, ok, err, arith, All, ◌≤◌}
use ump.Prelude.Int.{pos, ◌+ℤ◌, ◌-ℤ◌, ◌≤ℤ◌, ◌<ℤ◌}
use ump.Prelude.Table.{find, update, select}
use ump.Models.Status
use ump.Models.Lease.{AuthorityLease, lease_post_init, make_lease}
use ump.Models.Samples.{carry_lease, carry_job}
use ump.Authority.Store.{
  AuthorityStore, LeaseRow, open_store, lease_key, grant, revoke, upsert, authorize, not_yet_valid,
}
use ump.Authority.Authorize.{Authorized, authorize_iff, authorize-in_window}
use ump.Authority.Granted.{authorize-grant}
use ump.Authority.History.{Call, granting, revoking, perform_all}
use ump.Authority.History.Revoked.{perform_all-revoked, authorize-revoked}
use ump.Authority.History.Trail.{Accounts, perform_all-Accounts}
use ump.Authority.Listing.{
  EffectiveStatus, effective_status, status_clause, read_authority_leases, summaries, summary,
  listed, order_rows, AuthorityLeaseSummary,
}
use ump.Authority.Listing.Filters.{status_clause-effective_status, expired_clause_too_wide}
use ump.Authority.Listing.Results.{read_authority_leases-results}

-- the store after the grant of the lease, as a value
abbrev carry_row : LeaseRow
carry_row = record { lease = carry_lease; updated_at_ms = pos 1000 }

abbrev granted_store : AuthorityStore
granted_store = (grant carry_lease (pos 1000) (open_store "robot-1")).1

grant_returns : (grant carry_lease (pos 1000) (open_store "robot-1")).0 ≡ ok tt
unfolding grant find
grant_returns = refl

authorize_run :
    authorize "coordinator-1" "robot-1" carry_job (pos 2000) granted_store ≡ ok carry_lease
unfolding authorize make_lease grant upsert find ◌+ℤ◌ ◌-ℤ◌
authorize_run = refl

too_early :
    authorize "coordinator-1" "robot-1" carry_job (pos 1049) granted_store ≡ err not_yet_valid
unfolding authorize make_lease grant upsert find ◌+ℤ◌ ◌-ℤ◌
too_early = refl

authorize_iff_example :
    Authorized "coordinator-1" "robot-1" carry_job (pos 2000) granted_store carry_lease
authorize_iff_example =
    (authorize_iff "coordinator-1" "robot-1" carry_job (pos 2000) granted_store carry_lease).0
      authorize_run

authorize-in_window_example : (pos 1000 ≤ℤ pos 1950) × (pos 1950 <ℤ pos 9000)
unfolding ◌+ℤ◌
authorize-in_window_example =
    authorize-in_window "coordinator-1" "robot-1" carry_job (pos 2000) granted_store carry_lease
      (pos 1950) authorize_run (omega arith) (omega arith)

valid_lease : lease_post_init carry_lease ≡ ok tt
unfolding lease_post_init
valid_lease = refl

authorize-grant_example :
    authorize "coordinator-1" "robot-1" carry_job (pos 2000) granted_store ≡ ok carry_lease
unfolding ◌+ℤ◌
authorize-grant_example =
    authorize-grant carry_lease (pos 1000) (pos 2000) (open_store "robot-1") carry_job valid_lease
      grant_returns refl refl (omega arith) (omega arith)

abbrev revoked_row : LeaseRow
revoked_row = record {
  lease = record carry_lease { status = Status.LeaseStatus.revoked; revision = pos 2 };
  updated_at_ms = pos 3000;
}

abbrev revoked_store : AuthorityStore
revoked_store = (revoke "lease-1" (pos 1) (pos 3000) "operator request" granted_store).1

revoked_stored : find lease_key "lease-1" revoked_store.leases ≡ some revoked_row
unfolding revoke grant upsert find update ◌+ℤ◌
revoked_stored = refl

abbrev later_calls : List Call
later_calls =
    granting (record carry_lease { revision = pos 3 }) (pos 4000)
    ∷ revoking "lease-1" (pos 2) (pos 5000) "again"
    ∷ []

perform_all-revoked_example :
    find lease_key "lease-1" (perform_all later_calls revoked_store).leases ≡ some revoked_row
perform_all-revoked_example =
    perform_all-revoked "lease-1" revoked_row refl later_calls revoked_store revoked_stored

authorize-revoked_example :
    authorize "coordinator-1" "robot-1" carry_job (pos 2000) (perform_all later_calls revoked_store)
    ≢ ok carry_lease
authorize-revoked_example =
    authorize-revoked "lease-1" revoked_row refl later_calls revoked_store "coordinator-1" "robot-1"
      carry_job (pos 2000) carry_lease revoked_stored refl

perform_all-Accounts_example : Accounts "lease-1" (perform_all later_calls (open_store "robot-1"))
perform_all-Accounts_example = perform_all-Accounts later_calls "robot-1" "lease-1"

status_clause_example :
    (status_clause EffectiveStatus.active (pos 2000) carry_lease ≡ true)
    ↔ (effective_status carry_lease (pos 2000) ≡ EffectiveStatus.active)
unfolding ◌+ℤ◌ ◌-ℤ◌
status_clause_example =
    status_clause-effective_status EffectiveStatus.active (pos 2000) carry_lease (omega arith)

abbrev unsure_lease : AuthorityLease
unsure_lease = record carry_lease { maximum_clock_uncertainty_ms = pos 60000 }

expired_clause_example :
    (status_clause EffectiveStatus.expired (pos 2000) unsure_lease ≡ true)
    × (effective_status unsure_lease (pos 2000) ≡ EffectiveStatus.not_yet_valid)
unfolding ◌+ℤ◌
expired_clause_example =
    expired_clause_too_wide (pos 2000) unsure_lease refl (omega arith) (omega arith)

listing_run :
    read_authority_leases
      (carry_row ∷ [])
      "robot-1"
      (pos 2000)
      (some EffectiveStatus.active)
      none
      (pos 100)
    ≡ ok (
        record {
          lease = carry_lease;
          effective_status = EffectiveStatus.active;
          updated_at_ms = pos 1000;
        }
        ∷ [])
unfolding read_authority_leases summaries summary listed order_rows select make_lease status_clause
    effective_status ◌+ℤ◌ ◌-ℤ◌
listing_run = refl

read_authority_leases_example :
    (1 ≤ 100)
    × All
        (λ (m : AuthorityLeaseSummary).
          (m.lease.grantor_robot_id ≡ "robot-1") × (m.effective_status ≡ EffectiveStatus.active))
        (record {
          lease = carry_lease;
          effective_status = EffectiveStatus.active;
          updated_at_ms = pos 1000;
        }
          ∷ [])
unfolding ◌+ℤ◌ ◌-ℤ◌
read_authority_leases_example =
    read_authority_leases-results (carry_row ∷ []) "robot-1" (pos 2000) EffectiveStatus.active none
      (pos 100) _ (omega arith, tt) listing_run

abbrev carry_summary : AuthorityLeaseSummary
carry_summary = record {
  lease = carry_lease;
  effective_status = EffectiveStatus.active;
  updated_at_ms = pos 1000;
}

read_run :
    read_authority_lease granted_store.leases "robot-1" "lease-1" (pos 2000) ≡ ok carry_summary
unfolding read_authority_lease summary effective_status make_lease grant upsert find ◌-ℤ◌ ◌+ℤ◌
read_run = refl

read_authority_lease-authorize_example :
    authorize "coordinator-1" "robot-1" carry_job (pos 2000) granted_store ≡ ok carry_lease
unfolding grant find
read_authority_lease-authorize_example =
    read_authority_lease-authorize granted_store "lease-1" (pos 2000) carry_summary carry_job
      read_run refl refl refl
