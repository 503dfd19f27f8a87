-- ===== src/Authority/Listing/Results.antt =====
-- What a listing of leases returns.
use ump.Prelude.{
  ℕ, zero, suc, String, ◌≡◌, ◌≤◌, Bool, true, Option, some, List, [], ◌∷◌, ok, >>=-eq-ok,
  ok-injective, subst, All, length, take, arith, eq_iff, Bool-cases, inl, inr,
}
use ump.Prelude.Int.{ℤ, pos_part}
use ump.Prelude.Table.{select}
use ump.Models.Lease.{make_lease}
use ump.Authority.Store.{LeaseRow}
use ump.Authority.Listing.{
  EffectiveStatus, AuthorityLeaseSummary, listed, summary, summaries, insert_row, order_rows,
  listed_before, read_authority_leases,
}
use ump.Authority.Listing.Filters.{IsWide, status_clause-effective_status}

-- a property of rows through the steps of the listing
module _ (P : LeaseRow → Type 0) where
  All-select :
      (p : LeaseRow → Bool) (rows : List LeaseRow)
      → All (λ r. p r ≡ true → P r) rows
      → All P (select p rows)
  unfolding select
  All-select p [] h = tt
  All-select p (r ∷ rows) h = elim (Bool-cases (p r)) [
    | inl e ↦ rw e (h.0 e, All-select p rows h.1)
    | inr e ↦ rw e (All-select p rows h.1)
  ]

  All-insert_row :
      (r : LeaseRow) (rows : List LeaseRow) → P r → All P rows → All P (insert_row r rows)
  unfolding insert_row
  All-insert_row r [] p h = (p, tt)
  All-insert_row r (x ∷ rows) p h = elim (Bool-cases (listed_before r x)) [
    | inl e ↦ rw e (p, h)
    | inr e ↦ rw e (h.0, All-insert_row r rows p h.1)
  ]

  All-order_rows : (rows : List LeaseRow) → All P rows → All P (order_rows rows)
  unfolding order_rows
  All-order_rows [] h = tt
  All-order_rows (r ∷ rows) h = All-insert_row r (order_rows rows) h.0 (All-order_rows rows h.1)

  All-take : (n : ℕ) (rows : List LeaseRow) → All P rows → All P (take n rows)
  All-take zero rows h = tt
  All-take (suc n) [] h = tt
  All-take (suc n) (r ∷ rows) h = (h.0, All-take n rows h.1)

summary-Reports :
    (robot_id : String) (now_ms : ℤ) (status : EffectiveStatus) (issuer_id : Option String)
    (r : LeaseRow) (m : AuthorityLeaseSummary)
    → IsWide r.lease
    → listed robot_id now_ms (some status) issuer_id r ≡ true
    → summary now_ms r ≡ ok m
    → (m.lease.grantor_robot_id ≡ robot_id) × (m.effective_status ≡ status)
unfolding listed summary make_lease
summary-Reports robot_id now status issuer r m wide h e = ground (
  arith,
  eq_iff r.lease.grantor_robot_id robot_id,
  (status_clause-effective_status status now r.lease wide).0,
)

module _ {P : LeaseRow → Type 0} {Q : AuthorityLeaseSummary → Type 0} (now_ms : ℤ)
    (one : (r : LeaseRow) (m : AuthorityLeaseSummary) → P r → summary now_ms r ≡ ok m → Q m) where
  All-summaries :
      (rows : List LeaseRow) (out : List AuthorityLeaseSummary)
      → All P rows
      → summaries now_ms rows ≡ ok out
      → All Q out × (length out ≤ length rows)
  unfolding summaries
  All-summaries [] [] h e = (tt, omega arith)
  All-summaries [] (m ∷ out) h e = cc
  All-summaries (r ∷ rows) out h e =
      let (m, e₁, k₁) = >>=-eq-ok (summary now_ms r) _ e in
      let (rest, e₂, k₂) = >>=-eq-ok (summaries now_ms rows) _ k₁ in
      let (good, few) = All-summaries rows rest h.1 e₂ in
      let same : m ∷ rest ≡ out = ok-injective k₂ in
      subst (λ l. All Q l × (length l ≤ suc (length rows))) same
        ((one r m h.0 e₁, good), omega arith)

-- the rows that a listing reads
listed_rows-met :
    (keep : LeaseRow → Bool) (rows : List LeaseRow)
    → All (λ r. IsWide r.lease) rows
    → All (λ r. keep r ≡ true → IsWide r.lease × (keep r ≡ true)) rows
listed_rows-met keep [] h = tt
listed_rows-met keep (r ∷ rows) h = (λ e. (h.0, e), listed_rows-met keep rows h.1)

length-take-le {ℓ} : {A : Type ℓ} (n : ℕ) (xs : List A) → length (take n xs) ≤ n
length-take-le zero xs = omega arith
length-take-le (suc n) [] = omega arith
length-take-le (suc n) (x ∷ xs) = omega (arith, length-take-le n xs)

-- A listing with a status filter, of leases whose windows are longer than twice their clock
-- uncertainty, returns at most `limit` summaries, each of a lease that the asked robot granted and
-- each with exactly the asked effective status.
pub read_authority_leases-results :
    (rows : List LeaseRow) (robot_id : String) (now_ms : ℤ) (status : EffectiveStatus)
    (issuer_id : Option String) (limit : ℤ) (out : List AuthorityLeaseSummary)
    → All (λ r. IsWide r.lease) rows
    → read_authority_leases rows robot_id now_ms (some status) issuer_id limit ≡ ok out
    → (length out ≤ pos_part limit)
      × All (λ m. (m.lease.grantor_robot_id ≡ robot_id) × (m.effective_status ≡ status)) out
unfolding read_authority_leases
read_authority_leases-results rows robot_id now status issuer limit out wide h =
    let keep = listed robot_id now (some status) issuer in
    let chosen = take (pos_part limit) (order_rows (select keep rows)) in
    let met = All-take _ (pos_part limit) (order_rows (select keep rows)) (
      All-order_rows _ (select keep rows)
        (All-select _ keep rows (listed_rows-met keep rows wide))) in
    let ran : summaries now chosen ≡ ok out = ground arith in
    let (good, few) =
      All-summaries now (λ r m p e. summary-Reports robot_id now status issuer r m p.0 p.1 e) chosen
        out met ran in
    (omega (arith, few, length-take-le (pos_part limit) (order_rows (select keep rows))), good)
