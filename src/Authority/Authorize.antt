-- ===== src/Authority/Authorize.antt =====
-- When `authorize` gives its lease.
use ump.Prelude.{
  String, ◌≡◌, ◌↔◌, true, none, some, ok, elem, arith, eq_iff, Option-cases, inl, inr, sym, ap, ◌∙◌,
}
use ump.Prelude.Int.{ℤ, ◌+ℤ◌, ◌≤ℤ◌, ◌<ℤ◌, +ℤ_parts, -ℤ_parts}
use ump.Prelude.Table.{find, find-key}
use ump.Models.Status.{active}
use ump.Models.Lease.{AuthorityLease, lease_post_init, make_lease}
use ump.Models.Step.{Assignment}
use ump.Authority.Store.{AuthorityStore, LeaseRow, lease_key, check_lease, authorize}

-- What the owner of a robot wants of an authorized assignment: the lease is active, is held by the
-- sender, covers the capability, and its window holds at every time that the clock may mean.
pub record Covers (issuer_id capability : String) (now_ms : ℤ) (l : AuthorityLease) : Type 0 where
  pub active_status : l.status ≡ active
  pub held : l.issuer_id ≡ issuer_id
  pub in_scope : elem capability l.capabilities ≡ true
  pub opened : (l.issued_at_ms +ℤ l.maximum_clock_uncertainty_ms) ≤ℤ now_ms
  pub not_closed : (now_ms +ℤ l.maximum_clock_uncertainty_ms) <ℤ l.expires_at_ms

check_lease-Covers :
    (issuer_id capability : String) (now_ms : ℤ) (l : AuthorityLease)
    → check_lease issuer_id capability now_ms l ≡ ok tt
    → Covers issuer_id capability now_ms l
unfolding check_lease
check_lease-Covers i c t l h = record {
  active_status = ground arith;
  held = ground (arith, eq_iff l.issuer_id i);
  in_scope = ground arith;
  opened = ground (
    arith,
    -ℤ_parts t l.maximum_clock_uncertainty_ms,
    +ℤ_parts l.issued_at_ms l.maximum_clock_uncertainty_ms,
  );
  not_closed = ground (arith);
}

Covers-check_lease :
    (issuer_id capability : String) (now_ms : ℤ) (l : AuthorityLease)
    → Covers issuer_id capability now_ms l
    → check_lease issuer_id capability now_ms l ≡ ok tt
unfolding check_lease
Covers-check_lease i c t l h = ground (
  arith,
  eq_iff l.issuer_id i,
  -ℤ_parts t l.maximum_clock_uncertainty_ms,
  +ℤ_parts l.issued_at_ms l.maximum_clock_uncertainty_ms,
)

-- The lease `l` is the stored one that the assignment presents to this robot, and covers the call.
pub record Authorized (issuer_id robot_id : String) (a : Assignment) (now_ms : ℤ)
    (s : AuthorityStore) (l : AuthorityLease) : Type 0 where
  pub here : robot_id ≡ s.robot_id
  pub row : LeaseRow
  pub presents : a.authority_lease_id ≡ some l.lease_id
  pub stored : find lease_key l.lease_id s.leases ≡ some row
  pub same : row.lease ≡ l
  pub well_formed : lease_post_init l ≡ ok tt
  pub covers : Covers issuer_id a.step.capability now_ms l

module _ (issuer_id robot_id : String) (a : Assignment) (now_ms : ℤ) (s : AuthorityStore)
    (l : AuthorityLease) where
  abbrev Returned : Type 0
  Returned = authorize issuer_id robot_id a now_ms s ≡ ok l

  nothing_presented : a.authority_lease_id ≡ none → ¬ Returned
  unfolding authorize
  nothing_presented p h = ground arith

  nothing_stored :
      (k : String) → a.authority_lease_id ≡ some k → find lease_key k s.leases ≡ none → ¬ Returned
  unfolding authorize
  nothing_stored k p q h = ground arith

  -- what a successful call passed, given the row that it read
  passed :
      (k : String) (row : LeaseRow)
      → a.authority_lease_id ≡ some k
      → find lease_key k s.leases ≡ some row
      → Returned
      → (robot_id ≡ s.robot_id)
        × (lease_post_init row.lease ≡ ok tt)
        × (row.lease ≡ l)
        × (check_lease issuer_id a.step.capability now_ms row.lease ≡ ok tt)
  unfolding authorize make_lease
  passed k row p q h = ground (arith, eq_iff robot_id s.robot_id)

  Authorized-row :
      (k : String) (row : LeaseRow)
      → a.authority_lease_id ≡ some k
      → find lease_key k s.leases ≡ some row
      → Returned
      → Authorized issuer_id robot_id a now_ms s l
  Authorized-row k row p q h =
      let (here, formed, same, checked) = passed k row p q h in
      let id : l.lease_id ≡ k =
        ap (λ (m : AuthorityLease). m.lease_id) (sym same) ∙ find-key lease_key k s.leases row q in
      record {
        here = here;
        row = row;
        presents = rw id p;
        stored = rw id q;
        same = same;
        well_formed = rw (← same) formed;
        covers = check_lease-Covers issuer_id a.step.capability now_ms l (rw (← same) checked);
      }

  authorize-Authorized : Returned → Authorized issuer_id robot_id a now_ms s l
  authorize-Authorized h = elim (Option-cases a.authority_lease_id) [
    | inl p ↦ absurd (nothing_presented p h)
    | inr (k, p) ↦ elim (Option-cases (find lease_key k s.leases)) [
      | inl q ↦ absurd (nothing_stored k p q h)
      | inr (row, q) ↦ Authorized-row k row p q h
    ]
  ]

  Authorized-authorize : Authorized issuer_id robot_id a now_ms s l → Returned
  unfolding authorize make_lease
  Authorized-authorize h = ground (
    arith,
    eq_iff robot_id s.robot_id,
    ap (λ (m : AuthorityLease). lease_post_init m) h.same,
    ap (λ (m : AuthorityLease). check_lease issuer_id a.step.capability now_ms m) h.same,
    Covers-check_lease issuer_id a.step.capability now_ms l h.covers,
  )

  -- `authorize` returns the lease `l` exactly when the call is for this robot, the assignment
  -- presents the identifier of a stored row whose lease is `l` and passes the checks of its
  -- constructor, and that lease is active, is held by the sender, covers the capability, and has a
  -- window that holds at every time within the clock uncertainty.
  pub authorize_iff :
      (authorize issuer_id robot_id a now_ms s ≡ ok l) ↔ Authorized issuer_id robot_id a now_ms s l
  authorize_iff = (authorize-Authorized, Authorized-authorize)

  -- An authorized assignment is inside its lease's window at every true time `t` that differs from
  -- the clock by at most the lease's uncertainty.
  pub authorize-in_window :
      (t : ℤ)
      → authorize issuer_id robot_id a now_ms s ≡ ok l
      → now_ms ≤ℤ (t +ℤ l.maximum_clock_uncertainty_ms)
      → t ≤ℤ (now_ms +ℤ l.maximum_clock_uncertainty_ms)
      → (l.issued_at_ms ≤ℤ t) × (t <ℤ l.expires_at_ms)
  authorize-in_window t h near_below near_above =
      let c = (authorize-Authorized h).covers in
      let opened = c.opened in
      let not_closed = c.not_closed in
      (
        omega (
          arith,
          +ℤ_parts l.issued_at_ms l.maximum_clock_uncertainty_ms,
          +ℤ_parts t l.maximum_clock_uncertainty_ms,
        ),
        omega (arith, +ℤ_parts now_ms l.maximum_clock_uncertainty_ms),
      )
