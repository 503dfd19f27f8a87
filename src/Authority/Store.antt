-- ===== src/Authority/Store.antt =====
-- `SqliteAuthorityStore` of authority.py: leases granted, revoked and checked, with audit events.
use Prim.Native.String.{len}
use ump.Prelude.{
  ℕ, ◌+◌, String, Bool, true, false, ◌||◌, not, Option, none, some, List, [], ◌∷◌, ◌++◌, Result,
  Done, ok, err, ◌>>=◌, ◌>>◌, refuse, guard, transaction, ltb, ◌==◌, elem, if◌then◌else◌,
}
use ump.Prelude.Int.{ℤ, pos, ◌+ℤ◌, ◌-ℤ◌, ltb_ℤ, leb_ℤ, eqb_ℤ}
use ump.Prelude.Table.{select, update, find}
use ump.Models.Text.{ModelError, blank, max_text_bytes}
use ump.Models.Status.{LeaseStatus, active, revoked}
use ump.Models.Lease.{AuthorityLease, make_lease}
use ump.Models.Step.{Assignment}

-- One constructor for each `raise` of the store.
pub data AuthorityError : Type 0 where
  grantor_differs not_active identity_immutable revoked_renewal revision_step : AuthorityError
  bad_reason unknown_lease revision_changed only_active_revoked : AuthorityError
  other_robot no_lease_presented lease_unknown lease_inactive : AuthorityError
  issuer_differs out_of_scope not_yet_valid past_expiry : AuthorityError
  invalid_row : ModelError → AuthorityError

-- A row of `authority_leases`; the capabilities and the status are kept decoded.
pub record LeaseRow : Type 0 where
  pub lease : AuthorityLease
  pub updated_at_ms : ℤ

abbrev pub lease_key : LeaseRow → String
lease_key r = r.lease.lease_id

pub data EventType : Type 0 where
  grant_event revoke_event : EventType

-- A row of `authority_events`.
pub record AuthorityEvent : Type 0 where
  pub sequence : ℕ
  pub lease_id : String
  pub event_type : EventType
  pub revision : ℤ
  pub occurred_at_ms : ℤ
  pub detail : String

pub record AuthorityStore : Type 0 where
  pub robot_id : String
  pub leases : List LeaseRow
  pub events : List AuthorityEvent
  pub next_sequence : ℕ

-- A store over new tables.
abbrev pub open_store : String → AuthorityStore
open_store robot_id = record { robot_id = robot_id; leases = []; events = []; next_sequence = 1 }

-- `status is LeaseStatus.ACTIVE`
abbrev pub is_active : LeaseStatus → Bool
is_active active = true
is_active _ = false

-- `status is LeaseStatus.REVOKED`
abbrev pub is_revoked : LeaseStatus → Bool
is_revoked revoked = true
is_revoked _ = false

-- `_append_event_locked`
unfoldable pub append_event : String → EventType → ℤ → ℤ → String → AuthorityStore → AuthorityStore
append_event lease_id event_type revision now_ms detail s = record s {
  events =
      s.events
      ++ record {
        sequence = s.next_sequence;
        lease_id = lease_id;
        event_type = event_type;
        revision = revision;
        occurred_at_ms = now_ms;
        detail = detail;
      }
        ∷ [];
  next_sequence = s.next_sequence + 1;
}

-- the checks of `grant` on the row that the lease would renew
unfoldable pub check_renewal : AuthorityLease → Option LeaseRow → Result AuthorityError Done
check_renewal lease none = ok tt
check_renewal lease (some row) = do
  refuse
      (not (row.lease.grantor_robot_id == lease.grantor_robot_id)
        || not (row.lease.issuer_id == lease.issuer_id))
      identity_immutable
  refuse (is_revoked row.lease.status) revoked_renewal
  guard (eqb_ℤ lease.revision (row.lease.revision +ℤ pos 1)) revision_step

-- the columns that `ON CONFLICT(lease_id) DO UPDATE` writes
abbrev pub renew : AuthorityLease → ℤ → LeaseRow → LeaseRow
renew lease now_ms row = record row {
  lease = record row.lease {
    capabilities = lease.capabilities;
    issued_at_ms = lease.issued_at_ms;
    expires_at_ms = lease.expires_at_ms;
    maximum_clock_uncertainty_ms = lease.maximum_clock_uncertainty_ms;
    revision = lease.revision;
    status = lease.status;
  };
  updated_at_ms = now_ms;
}

-- INSERT ... ON CONFLICT(lease_id) DO UPDATE, given the row that has the key
unfoldable pub upsert_at : Option LeaseRow → AuthorityLease → ℤ → List LeaseRow → List LeaseRow
upsert_at none lease now_ms rows = rows ++ record { lease = lease; updated_at_ms = now_ms } ∷ []
upsert_at (some _) lease now_ms rows =
    update (λ r. lease_key r == lease.lease_id) (renew lease now_ms) rows

unfoldable pub upsert : AuthorityLease → ℤ → List LeaseRow → List LeaseRow
unfolding upsert_at
upsert lease now_ms rows = upsert_at (find lease_key lease.lease_id rows) lease now_ms rows

unfoldable pub grant_body :
    AuthorityLease → ℤ → AuthorityStore → Result AuthorityError (Done × AuthorityStore)
unfolding check_renewal append_event
grant_body lease now_ms s = do
  check_renewal lease (find lease_key lease.lease_id s.leases)
  let written = record s { leases = upsert lease now_ms s.leases }
  ok (tt, append_event lease.lease_id grant_event lease.revision now_ms "lease active" written)

-- `SqliteAuthorityStore.grant`
unfoldable pub grant :
    AuthorityLease → ℤ → AuthorityStore → Result AuthorityError Done × AuthorityStore
unfolding grant_body
grant lease now_ms s =
    if not (lease.grantor_robot_id == s.robot_id)
    then (err grantor_differs, s)
    else if not (is_active lease.status)
    then (err not_active, s)
    else transaction (grant_body lease now_ms) s

-- UPDATE authority_leases SET status = 'revoked', revision = ?, updated_at_ms = ?
abbrev pub set_revoked : ℤ → ℤ → LeaseRow → LeaseRow
set_revoked revision now_ms row = record row {
  lease = record row.lease { status = revoked; revision = revision };
  updated_at_ms = now_ms;
}

-- the checks of `revoke` on the row of its lease
unfoldable pub check_revocable : ℤ → Option LeaseRow → Result AuthorityError Done
check_revocable expected_revision none = err unknown_lease
check_revocable expected_revision (some row) = do
  guard (eqb_ℤ row.lease.revision expected_revision) revision_changed
  guard (is_active row.lease.status) only_active_revoked

unfoldable pub revoke_body :
    String → ℤ → ℤ → String → AuthorityStore → Result AuthorityError (Done × AuthorityStore)
unfolding check_revocable append_event
revoke_body lease_id expected_revision now_ms reason s = do
  check_revocable expected_revision (find lease_key lease_id s.leases)
  let revision = expected_revision +ℤ pos 1
  let rows = update (λ r. lease_key r == lease_id) (set_revoked revision now_ms) s.leases
  ok (tt, append_event lease_id revoke_event revision now_ms reason (record s { leases = rows }))

-- `SqliteAuthorityStore.revoke`
unfoldable pub revoke :
    String → ℤ → ℤ → String → AuthorityStore → Result AuthorityError Done × AuthorityStore
unfolding revoke_body
revoke lease_id expected_revision now_ms reason s =
    if blank reason || ltb max_text_bytes (len reason)
    then (err bad_reason, s)
    else transaction (revoke_body lease_id expected_revision now_ms reason) s

abbrev pub lift_invalid : Result ModelError AuthorityLease → Result AuthorityError AuthorityLease
lift_invalid (ok lease) = ok lease
lift_invalid (err e) = err (invalid_row e)

-- the checks of `authorize` on the lease that it read
unfoldable pub check_lease : String → String → ℤ → AuthorityLease → Result AuthorityError Done
check_lease issuer_id capability now_ms lease = do
  guard (is_active lease.status) lease_inactive
  guard (lease.issuer_id == issuer_id) issuer_differs
  guard (elem capability lease.capabilities) out_of_scope
  let uncertainty = lease.maximum_clock_uncertainty_ms
  refuse (ltb_ℤ (now_ms -ℤ uncertainty) lease.issued_at_ms) not_yet_valid
  refuse (leb_ℤ lease.expires_at_ms (now_ms +ℤ uncertainty)) past_expiry

abbrev pub presented : Option String → Result AuthorityError String
presented none = err no_lease_presented
presented (some lease_id) = ok lease_id

abbrev pub known : Option LeaseRow → Result AuthorityError LeaseRow
known none = err lease_unknown
known (some row) = ok row

-- `SqliteAuthorityStore.authorize`
unfoldable pub authorize :
    String → String → Assignment → ℤ → AuthorityStore → Result AuthorityError AuthorityLease
unfolding check_lease
authorize issuer_id robot_id assignment now_ms s = do
  guard (robot_id == s.robot_id) other_robot
  lease_id ← presented assignment.authority_lease_id
  row ← known (find lease_key lease_id s.leases)
  lease ← lift_invalid (make_lease row.lease)
  check_lease issuer_id assignment.step.capability now_ms lease
  ok lease

-- `SqliteAuthorityStore.events`
unfoldable pub events_of : String → AuthorityStore → List AuthorityEvent
events_of lease_id s = select (λ e. e.lease_id == lease_id) s.events
