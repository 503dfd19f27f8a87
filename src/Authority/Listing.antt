-- ===== src/Authority/Listing.antt =====
-- The read-only listing of leases in authority.py: `_effective_status`, `_summary` and
-- `read_authority_leases`. `isinstance` checks are the types of the arguments.
pub mod Filters
pub mod Results
use Prim.Native.String.{compare}
use Prim.Native.Nat.{Ordering}
use ump.Prelude.{
  ℕ, String, Bool, true, false, not, ◌&&◌, ◌||◌, Option, none, some, List, [], ◌∷◌, Result, Done,
  ok, err, ◌>>=◌, ◌>>◌, refuse, ◌==◌, if◌then◌else◌, take,
}
use ump.Prelude.Int.{ℤ, pos, pos_part, ◌+ℤ◌, ◌-ℤ◌, ltb_ℤ, leb_ℤ, eqb_ℤ}
use ump.Prelude.Table.{select}
use ump.Models.Text.{ModelError, blank}
use ump.Models.Status.{LeaseStatus}
use ump.Models.Lease.{AuthorityLease, make_lease}
use ump.Authority.Store.{LeaseRow, lease_key, is_active, is_revoked}

pub data EffectiveStatus : Type 0 where
  active not_yet_valid expired revoked : EffectiveStatus

pub data ReadError : Type 0 where
  bad_robot_id bad_now bad_issuer_filter bad_limit : ReadError
  bad_lease_id no_such_lease : ReadError
  invalid_row : ModelError → ReadError

pub record AuthorityLeaseSummary : Type 0 where
  pub lease : AuthorityLease
  pub effective_status : EffectiveStatus
  pub updated_at_ms : ℤ

abbrev pub is_expired : LeaseStatus → Bool
is_expired LeaseStatus.expired = true
is_expired _ = false

-- `_effective_status`
unfoldable pub effective_status : AuthorityLease → ℤ → EffectiveStatus
effective_status lease now_ms =
    if is_revoked lease.status
    then EffectiveStatus.revoked
    else if is_expired lease.status
    then EffectiveStatus.expired
    else if ltb_ℤ (now_ms -ℤ lease.maximum_clock_uncertainty_ms) lease.issued_at_ms
    then not_yet_valid
    else if leb_ℤ lease.expires_at_ms (now_ms +ℤ lease.maximum_clock_uncertainty_ms)
    then EffectiveStatus.expired
    else EffectiveStatus.active

-- the WHERE clause that `read_authority_leases` adds for `effective_status`
unfoldable pub status_clause : EffectiveStatus → ℤ → AuthorityLease → Bool
status_clause EffectiveStatus.active now_ms l =
    is_active l.status
    && (leb_ℤ l.issued_at_ms (now_ms -ℤ l.maximum_clock_uncertainty_ms)
        && ltb_ℤ (now_ms +ℤ l.maximum_clock_uncertainty_ms) l.expires_at_ms)
status_clause not_yet_valid now_ms l =
    is_active l.status && ltb_ℤ (now_ms -ℤ l.maximum_clock_uncertainty_ms) l.issued_at_ms
status_clause EffectiveStatus.expired now_ms l =
    is_expired l.status
    || (is_active l.status && leb_ℤ l.expires_at_ms (now_ms +ℤ l.maximum_clock_uncertainty_ms))
status_clause EffectiveStatus.revoked now_ms l = is_revoked l.status

abbrev pub optional_status_clause : Option EffectiveStatus → ℤ → AuthorityLease → Bool
optional_status_clause none now_ms l = true
optional_status_clause (some status) now_ms l = status_clause status now_ms l

abbrev pub issuer_clause : Option String → AuthorityLease → Bool
issuer_clause none l = true
issuer_clause (some issuer_id) l = l.issuer_id == issuer_id

-- `_summary`
unfoldable pub summary : ℤ → LeaseRow → Result ReadError AuthorityLeaseSummary
summary now_ms row = elim (make_lease row.lease) [
  | ok lease ↦ ok (record {
    lease = lease;
    effective_status = effective_status lease now_ms;
    updated_at_ms = row.updated_at_ms;
  })
  | err e ↦ err (invalid_row e)
]

unfoldable pub summaries : ℤ → List LeaseRow → Result ReadError (List AuthorityLeaseSummary)
summaries now_ms [] = ok []
summaries now_ms (row ∷ rows) = do
  first ← summary now_ms row
  rest ← summaries now_ms rows
  ok (first ∷ rest)

abbrev pub text_le : String → String → Bool
text_le a b = elim (compare a b) [ Ordering.gt ↦ false | _ ↦ true ]

-- ORDER BY updated_at_ms DESC, lease_id
abbrev pub listed_before : LeaseRow → LeaseRow → Bool
listed_before a b =
    ltb_ℤ b.updated_at_ms a.updated_at_ms
    || (eqb_ℤ a.updated_at_ms b.updated_at_ms && text_le (lease_key a) (lease_key b))

unfoldable pub insert_row : LeaseRow → List LeaseRow → List LeaseRow
insert_row r [] = r ∷ []
insert_row r (x ∷ xs) =
    let rest = insert_row r xs in if listed_before r x then r ∷ x ∷ xs else x ∷ rest

unfoldable pub order_rows : List LeaseRow → List LeaseRow
unfolding insert_row
order_rows [] = []
order_rows (r ∷ rows) = insert_row r (order_rows rows)

-- the WHERE clause of the listing
unfoldable pub listed : String → ℤ → Option EffectiveStatus → Option String → LeaseRow → Bool
listed robot_id now_ms status issuer_id r =
    r.lease.grantor_robot_id == robot_id
    && (issuer_clause issuer_id r.lease && optional_status_clause status now_ms r.lease)

-- `issuer_id is not None and not issuer_id.strip()`
abbrev pub blank_filter : Option String → Bool
blank_filter none = false
blank_filter (some issuer_id) = blank issuer_id

-- `read_authority_leases`, over the rows of the table
unfoldable pub read_authority_leases :
    List LeaseRow
    → String
    → ℤ
    → Option EffectiveStatus
    → Option String
    → ℤ
    → Result ReadError (List AuthorityLeaseSummary)
read_authority_leases rows robot_id now_ms status issuer_id limit = do
  refuse (blank robot_id) bad_robot_id
  refuse (ltb_ℤ now_ms (pos 0)) bad_now
  refuse (blank_filter issuer_id) bad_issuer_filter
  refuse (ltb_ℤ limit (pos 1) || ltb_ℤ (pos 1000) limit) bad_limit
  summaries now_ms
      (take (pos_part limit) (order_rows (select (listed robot_id now_ms status issuer_id) rows)))
