-- ===== src/Authority/Reads.antt =====
-- `read_authority_lease` of authority.py, over the rows of the table.
use ump.Prelude.{
  String, ◌≡◌, refl, sym, ◌∙◌, ap, true, Option, none, some, List, Result, ok, err, ◌>>=◌, ◌>>◌,
  refuse, ◌==◌, if◌then◌else◌, elem, arith, >>=-eq-ok,
}
use ump.Prelude.Int.{ℤ, pos, ltb_ℤ, ◌+ℤ◌, ◌≤ℤ◌, ◌<ℤ◌, +ℤ_parts, -ℤ_parts}
use ump.Prelude.Table.{find, find-key}
use ump.Models.Text.{blank}
use ump.Models.Status
use ump.Models.Lease.{AuthorityLease, lease_post_init, make_lease}
use ump.Models.Step.{Assignment}
use ump.Authority.Store.{LeaseRow, lease_key, AuthorityStore, authorize}
use ump.Authority.Listing.{
  EffectiveStatus, ReadError, bad_robot_id, bad_lease_id, bad_now, no_such_lease,
  AuthorityLeaseSummary, summary, effective_status,
}
use ump.Authority.Authorize.{authorize_iff}

-- the row of the lease, if the robot granted it, or KeyError
abbrev pub granted_by : String → Option LeaseRow → Result ReadError LeaseRow
granted_by robot_id none = err no_such_lease
granted_by robot_id (some row) =
    if row.lease.grantor_robot_id == robot_id then ok row else err no_such_lease

-- `read_authority_lease`
unfoldable pub read_authority_lease :
    List LeaseRow → String → String → ℤ → Result ReadError AuthorityLeaseSummary
read_authority_lease rows robot_id lease_id now_ms = do
  refuse (blank robot_id) bad_robot_id
  refuse (blank lease_id) bad_lease_id
  refuse (ltb_ℤ now_ms (pos 0)) bad_now
  row ← granted_by robot_id (find lease_key lease_id rows)
  summary now_ms row

granted_by-ok :
    (robot_id : String) (o : Option LeaseRow) (row : LeaseRow)
    → granted_by robot_id o ≡ ok row
    → o ≡ some row
granted_by-ok robot_id none row h = cc
granted_by-ok robot_id (some x) row h = ground (arith, h)

-- a summary is of the lease of its row, which passes its checks
summary-lease :
    (now_ms : ℤ) (row : LeaseRow) (m : AuthorityLeaseSummary)
    → summary now_ms row ≡ ok m
    → (row.lease ≡ m.lease)
      × (lease_post_init row.lease ≡ ok tt)
      × (effective_status row.lease now_ms ≡ m.effective_status)
unfolding summary make_lease
summary-lease t row m h = ground (arith, h)

active-window :
    (l : AuthorityLease) (now_ms : ℤ)
    → effective_status l now_ms ≡ EffectiveStatus.active
    → (l.status ≡ Status.LeaseStatus.active)
      × ((l.issued_at_ms +ℤ l.maximum_clock_uncertainty_ms) ≤ℤ now_ms)
      × ((now_ms +ℤ l.maximum_clock_uncertainty_ms) <ℤ l.expires_at_ms)
unfolding effective_status
active-window l now_ms h = ground (
  arith,
  h,
  +ℤ_parts l.issued_at_ms l.maximum_clock_uncertainty_ms,
  +ℤ_parts now_ms l.maximum_clock_uncertainty_ms,
  -ℤ_parts now_ms l.maximum_clock_uncertainty_ms,
)

read_row-authorize :
    (s : AuthorityStore) (lease_id : String) (now_ms : ℤ) (m : AuthorityLeaseSummary)
    (a : Assignment) (row : LeaseRow)
    → find lease_key lease_id s.leases ≡ some row
    → summary now_ms row ≡ ok m
    → m.effective_status ≡ EffectiveStatus.active
    → a.authority_lease_id ≡ some lease_id
    → elem a.step.capability m.lease.capabilities ≡ true
    → authorize m.lease.issuer_id s.robot_id a now_ms s ≡ ok m.lease
read_row-authorize s lease_id t m a row stored shown is_active presents scope =
    let (same, formed, reported) = summary-lease t row m shown in
    let (status, opened, not_closed) =
      active-window m.lease t
        (ap (λ l. effective_status l t) (sym same) ∙ (reported ∙ is_active)) in
    let keyed : lease_id ≡ m.lease.lease_id =
      sym (find-key lease_key lease_id s.leases row stored)
      ∙ ap (λ (l : AuthorityLease). l.lease_id) same in
    (authorize_iff m.lease.issuer_id s.robot_id a t s m.lease).1 (record {
      here = refl;
      row = row;
      presents = presents ∙ ap some keyed;
      stored = ap (λ k. find lease_key k s.leases) (sym keyed) ∙ stored;
      same = same;
      well_formed = ap lease_post_init (sym same) ∙ formed;
      covers = record {
        active_status = status;
        held = refl;
        in_scope = scope;
        opened = opened;
        not_closed = not_closed;
      };
    })

-- Where `read_authority_lease` reports a lease of a robot as active, `authorize` at that time
-- accepts it from its issuer, for an assignment that presents it and asks for a capability in its
-- scope, and returns the lease that was reported.
pub read_authority_lease-authorize :
    (s : AuthorityStore) (lease_id : String) (now_ms : ℤ) (m : AuthorityLeaseSummary)
    (a : Assignment)
    → read_authority_lease s.leases s.robot_id lease_id now_ms ≡ ok m
    → m.effective_status ≡ EffectiveStatus.active
    → a.authority_lease_id ≡ some lease_id
    → elem a.step.capability m.lease.capabilities ≡ true
    → authorize m.lease.issuer_id s.robot_id a now_ms s ≡ ok m.lease
unfolding read_authority_lease
read_authority_lease-authorize s lease_id t m a read is_active presents scope =
    let (_, _, h₁) = >>=-eq-ok (refuse (blank s.robot_id) bad_robot_id) _ read in
    let (_, _, h₂) = >>=-eq-ok (refuse (blank lease_id) bad_lease_id) _ h₁ in
    let (_, _, h₃) = >>=-eq-ok (refuse (ltb_ℤ t (pos 0)) bad_now) _ h₂ in
    let (row, granted, shown) =
      >>=-eq-ok (granted_by s.robot_id (find lease_key lease_id s.leases)) _ h₃ in
    read_row-authorize s lease_id t m a row
      (granted_by-ok s.robot_id (find lease_key lease_id s.leases) row granted) shown is_active
      presents scope
