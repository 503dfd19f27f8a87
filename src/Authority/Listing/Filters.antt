-- ===== src/Authority/Listing/Filters.antt =====
-- The status filter of the listing against the status that the listing reports.
use ump.Prelude.{◌≡◌, ◌↔◌, true, arith}
use ump.Prelude.Int.{ℤ, ◌+ℤ◌, ◌-ℤ◌, ◌≤ℤ◌, ◌<ℤ◌, +ℤ_parts, -ℤ_parts}
use ump.Models.Status
use ump.Models.Lease.{AuthorityLease}
use ump.Authority.Listing.{EffectiveStatus, not_yet_valid, expired, effective_status, status_clause}

-- The lease's window is longer than twice its clock uncertainty.
abbrev pub IsWide : AuthorityLease → Type 0
IsWide l =
    (l.issued_at_ms +ℤ l.maximum_clock_uncertainty_ms)
    <ℤ (l.expires_at_ms -ℤ l.maximum_clock_uncertainty_ms)

-- For a lease whose window is longer than twice its clock uncertainty, the WHERE clause of a
-- status filter selects the lease exactly when the status that the listing reports is that one.
pub status_clause-effective_status :
    (status : EffectiveStatus) (now_ms : ℤ) (l : AuthorityLease)
    → IsWide l
    → (status_clause status now_ms l ≡ true) ↔ (effective_status l now_ms ≡ status)
unfolding status_clause effective_status
status_clause-effective_status status t l wide = (
  λ h. ground (
    arith,
    +ℤ_parts l.issued_at_ms l.maximum_clock_uncertainty_ms,
    -ℤ_parts l.expires_at_ms l.maximum_clock_uncertainty_ms,
    +ℤ_parts t l.maximum_clock_uncertainty_ms,
    -ℤ_parts t l.maximum_clock_uncertainty_ms,
  ),
  λ h. ground (
    arith,
    +ℤ_parts l.issued_at_ms l.maximum_clock_uncertainty_ms,
    -ℤ_parts l.expires_at_ms l.maximum_clock_uncertainty_ms,
    +ℤ_parts t l.maximum_clock_uncertainty_ms,
    -ℤ_parts t l.maximum_clock_uncertainty_ms,
  ),
)

-- The `expired` filter also selects every active lease that is still reported as not yet valid,
-- if its window ends within the clock uncertainty of now.
pub expired_clause_too_wide :
    (now_ms : ℤ) (l : AuthorityLease)
    → l.status ≡ Status.LeaseStatus.active
    → now_ms <ℤ (l.issued_at_ms +ℤ l.maximum_clock_uncertainty_ms)
    → l.expires_at_ms ≤ℤ (now_ms +ℤ l.maximum_clock_uncertainty_ms)
    → (status_clause expired now_ms l ≡ true) × (effective_status l now_ms ≡ not_yet_valid)
unfolding status_clause effective_status
expired_clause_too_wide t l a early late = ground (
  arith,
  +ℤ_parts l.issued_at_ms l.maximum_clock_uncertainty_ms,
  -ℤ_parts t l.maximum_clock_uncertainty_ms,
)
