-- ===== src/Authority/History/Rows.antt =====
-- The row of one lease after one call.
use ump.Prelude.{
  String, ◌≡◌, refl, Option, none, some, List, ◌==◌, if◌then◌else◌, arith, eq_iff, Option-cases,
  inl, inr,
}
use ump.Prelude.Int.{ℤ}
use ump.Prelude.Table.{find, update, find-update, find-append, find-key, updated}
use ump.Models.Lease.{AuthorityLease}
use ump.Authority.Store.{LeaseRow, lease_key, upsert_at, upsert, renew, set_revoked}

-- the row that `upsert` leaves for a lease
abbrev pub granted : AuthorityLease → ℤ → Option LeaseRow → LeaseRow
granted lease now_ms none = record { lease = lease; updated_at_ms = now_ms }
granted lease now_ms (some row) = renew lease now_ms row

find-upsert_at :
    (k : String) (o : Option LeaseRow) (lease : AuthorityLease) (now_ms : ℤ) (rows : List LeaseRow)
    → find lease_key lease.lease_id rows ≡ o
    → find lease_key k (upsert_at o lease now_ms rows)
      ≡ (if lease.lease_id == k then some (granted lease now_ms o) else find lease_key k rows)
unfolding upsert_at
find-upsert_at k none lease t rows fresh =
    rw find-append (ground (arith, eq_iff lease.lease_id k, fresh))
find-upsert_at k (some row) lease t rows old =
    rw
      (find-update lease_key k (λ r. lease_key r == lease.lease_id) (renew lease t) rows
        (λ r. refl))
      (elim (Option-cases (find lease_key k rows)) [
        | inl p ↦ rw p (ground (arith, eq_iff lease.lease_id k))
        | inr (x, p) ↦ rw p (
            ground (
              arith,
              eq_iff lease.lease_id k,
              eq_iff (lease_key x) lease.lease_id,
              find-key lease_key k rows x p,
            ))
      ])

pub find-upsert :
    (k : String) (lease : AuthorityLease) (now_ms : ℤ) (rows : List LeaseRow)
    → find lease_key k (upsert lease now_ms rows) ≡ (
        if lease.lease_id == k
        then some (granted lease now_ms (find lease_key lease.lease_id rows))
        else find lease_key k rows)
unfolding upsert
find-upsert k lease t rows = find-upsert_at k (find lease_key lease.lease_id rows) lease t rows refl

pub find-set_revoked :
    (k lease_id : String) (revision now_ms : ℤ) (rows : List LeaseRow)
    → find lease_key k (update (λ r. lease_key r == lease_id) (set_revoked revision now_ms) rows)
      ≡ updated (λ r. lease_id == k) (set_revoked revision now_ms) (find lease_key k rows)
find-set_revoked k lease_id v t rows =
    rw (find-update lease_key k (λ r. lease_key r == lease_id) (set_revoked v t) rows (λ r. refl))
      (elim (Option-cases (find lease_key k rows)) [
        | inl p ↦ rw p
        | inr (x, p) ↦ rw p (
            ground (
              arith,
              eq_iff lease_id k,
              eq_iff (lease_key x) lease_id,
              find-key lease_key k rows x p,
            ))
      ])
