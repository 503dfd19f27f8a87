-- ===== src/Authority/History/Trail.antt =====
-- The audit events of a lease over histories of the store of authority.py.
use ump.Prelude.{
  String, ◌≡◌, refl, false, Option, none, some, List, [], ◌∷◌, ◌++◌, map, ok, ◌==◌, if◌then◌else◌,
  arith, sym, ◌∙◌, ◌⊎◌, eq_iff, ap, Bool-cases, inl, inr,
}
use mathlib.Core.List.{map-append}
use ump.Prelude.Int.{ℤ, pos, ◌+ℤ◌, eqb_ℤ→eq}
use ump.Prelude.Table.{find, update, select, select-append}
use ump.Models.Lease.{AuthorityLease}
use ump.Authority.Store.{
  LeaseRow, lease_key, AuthorityStore, AuthorityEvent, EventType, grant_event, revoke_event, upsert,
  set_revoked, append_event, open_store, events_of, grant, revoke, check_renewal, check_revocable,
}
use ump.Authority.History.{Call, granting, revoking, perform, perform_all}
use ump.Authority.History.Rows.{find-upsert, find-set_revoked}

-- the revisions in the events of a lease, oldest first
abbrev revision_of : AuthorityEvent → ℤ
revision_of e = e.revision

pub revisions : String → AuthorityStore → List ℤ
revisions k s = map revision_of (events_of k s)

abbrev pub last : List ℤ → Option ℤ
last [] = none
last (x ∷ []) = some x
last (x ∷ y ∷ rest) = last (y ∷ rest)

-- Each entry is one more than the entry before it.
abbrev pub Consecutive : List ℤ → Type 0
Consecutive [] = Unit {0}
Consecutive (x ∷ []) = Unit {0}
Consecutive (x ∷ y ∷ rest) = (y ≡ x +ℤ pos 1) × Consecutive (y ∷ rest)

last-concat : (xs : List ℤ) (n : ℤ) → last (xs ++ n ∷ []) ≡ some n
last-concat [] n = refl
last-concat (x ∷ []) n = refl
last-concat (x ∷ y ∷ rest) n = last-concat (y ∷ rest) n

last-eq-none : (xs : List ℤ) → last xs ≡ none → xs ≡ []
last-eq-none [] h = refl
last-eq-none (x ∷ []) h = cc
last-eq-none (x ∷ y ∷ rest) h = cc (last-eq-none (y ∷ rest) h)

Consecutive-concat :
    (xs : List ℤ) (m : ℤ)
    → last xs ≡ some m
    → Consecutive xs
    → Consecutive (xs ++ (m +ℤ pos 1) ∷ [])
Consecutive-concat [] m h c = tt
Consecutive-concat (x ∷ []) m h c = (ground (arith), tt)
Consecutive-concat (x ∷ y ∷ rest) m h c = (c.0, Consecutive-concat (y ∷ rest) m h c.1)

abbrev pub stored_revision : Option LeaseRow → Option ℤ
stored_revision none = none
stored_revision (some row) = some row.lease.revision

-- The account of one lease: its revisions step by one, and end with the stored one.
pub record Accounts (k : String) (s : AuthorityStore) : Type 0 where
  pub consecutive : Consecutive (revisions k s)
  pub latest : last (revisions k s) ≡ stored_revision (find lease_key k s.leases)

-- the store after a write of the rows and of one event
abbrev written :
    String → EventType → ℤ → ℤ → String → List LeaseRow → AuthorityStore → AuthorityStore
written lease_id t n now detail rows s =
    append_event lease_id t n now detail (record s { leases = rows })

module _ (lease_id : String) (t : EventType) (n now : ℤ) (detail : String) (rows : List LeaseRow)
    (s : AuthorityStore) where
  revisions-written :
      (k : String)
      → revisions k (written lease_id t n now detail rows s)
        ≡ (if lease_id == k then revisions k s ++ n ∷ [] else revisions k s)
  unfolding revisions append_event events_of
  revisions-written k =
      rw select-append
        (elim (Bool-cases (lease_id == k)) [ inl e ↦ rw e (rw map-append) | inr e ↦ rw e ])

  leases-written : (written lease_id t n now detail rows s).leases ≡ rows
  unfolding append_event
  leases-written = refl

module _ (k : String) (s : AuthorityStore) (a : Accounts k s) where
  -- the account after an event whose revision is the new stored one
  extended :
      (n : ℤ) (t : AuthorityStore)
      → revisions k t ≡ revisions k s ++ n ∷ []
      → (stored_revision (find lease_key k s.leases) ≡ none)
        ⊎ ((m : ℤ) × (stored_revision (find lease_key k s.leases) ≡ some m) × (n ≡ m +ℤ pos 1))
      → stored_revision (find lease_key k t.leases) ≡ some n
      → Accounts k t
  extended n t more (inl fresh) new =
      let nothing = last-eq-none (revisions k s) (a.latest ∙ fresh) in
      record {
        consecutive = rw (more, nothing) tt;
        latest = rw more (last-concat (revisions k s) n ∙ sym new);
      }
  extended n t more (inr (m, old, step)) new = record {
    consecutive =
        rw (more, step) (Consecutive-concat (revisions k s) m (a.latest ∙ old) a.consecutive);
    latest = rw more (last-concat (revisions k s) n ∙ sym new);
  }

  -- the account where nothing of the lease changed
  untouched :
      (t : AuthorityStore)
      → revisions k t ≡ revisions k s
      → find lease_key k t.leases ≡ find lease_key k s.leases
      → Accounts k t
  untouched t same row = record {
    consecutive = rw same a.consecutive;
    latest = rw same (rw row a.latest);
  }

-- what a call of `grant` does to the store
grant_cases :
    (lease : AuthorityLease) (now : ℤ) (s : AuthorityStore)
    → ((check_renewal lease (find lease_key lease.lease_id s.leases) ≡ ok tt)
        × ((grant lease now s).1
            ≡ append_event lease.lease_id grant_event lease.revision now "lease active"
                (record s { leases = upsert lease now s.leases })))
      ⊎ ((grant lease now s).1 ≡ s)
unfolding grant
grant_cases lease now s = ground arith

revoke_cases :
    (lease_id : String) (v now : ℤ) (reason : String) (s : AuthorityStore)
    → ((check_revocable v (find lease_key lease_id s.leases) ≡ ok tt)
        × ((revoke lease_id v now reason s).1
            ≡ append_event lease_id revoke_event (v +ℤ pos 1) now reason (record s {
              leases =
                  update (λ r. lease_key r == lease_id) (set_revoked (v +ℤ pos 1) now) s.leases;
            })))
      ⊎ ((revoke lease_id v now reason s).1 ≡ s)
unfolding revoke
revoke_cases lease_id v now reason s = ground arith

renewal_step :
    (lease : AuthorityLease) (o : Option LeaseRow)
    → check_renewal lease o ≡ ok tt
    → (stored_revision o ≡ none)
      ⊎ ((m : ℤ) × (stored_revision o ≡ some m) × (lease.revision ≡ m +ℤ pos 1))
unfolding check_renewal
renewal_step lease none h = inl refl
renewal_step lease (some row) h =
    inr (
      row.lease.revision,
      refl,
      eqb_ℤ→eq lease.revision (row.lease.revision +ℤ pos 1) (ground arith),
    )

revocable_step :
    (v : ℤ) (o : Option LeaseRow) → check_revocable v o ≡ ok tt → stored_revision o ≡ some v
unfolding check_revocable
revocable_step v none h = cc
revocable_step v (some row) h = ap some (eqb_ℤ→eq row.lease.revision v (ground arith))

written-Accounts :
    (k lease_id : String) (t : EventType) (n now : ℤ) (detail : String) (rows : List LeaseRow)
    (s : AuthorityStore)
    → Accounts k s
    → ((stored_revision (find lease_key lease_id s.leases) ≡ none)
        ⊎ ((m : ℤ) × (stored_revision (find lease_key lease_id s.leases) ≡ some m)
            × (n ≡ m +ℤ pos 1)))
    → (lease_id ≡ k → stored_revision (find lease_key k rows) ≡ some n)
    → ((lease_id == k) ≡ false → find lease_key k rows ≡ find lease_key k s.leases)
    → Accounts k (written lease_id t n now detail rows s)
written-Accounts k lease_id t n now detail rows s a step hit miss =
    let more = revisions-written lease_id t n now detail rows s k in
    let kept = leases-written lease_id t n now detail rows s in
    elim (Bool-cases (lease_id == k)) [
      | inl e ↦
          let same = (eq_iff lease_id k).0 e in
          extended k s a n (written lease_id t n now detail rows s) (rw e at more) (rw same at step)
            (rw kept (hit same))
      | inr e ↦
          untouched k s a (written lease_id t n now detail rows s) (rw e at more) (rw kept (miss e))
    ]

perform-Accounts :
    (c : Call) (k : String) (s : AuthorityStore) → Accounts k s → Accounts k (perform c s)
unfolding perform
perform-Accounts (granting lease now) k s a = elim (grant_cases lease now s) [
  | inr same ↦ rw same a
  | inl (passed, effect) ↦ rw effect (
      written-Accounts k lease.lease_id grant_event lease.revision now "lease active"
        (upsert lease now s.leases) s a
        (renewal_step lease (find lease_key lease.lease_id s.leases) passed)
        (λ e. ground (arith, find-upsert k lease now s.leases, eq_iff lease.lease_id k))
        (λ e. rw (find-upsert, e)))
]
perform-Accounts (revoking lease_id v now reason) k s a =
    elim (revoke_cases lease_id v now reason s) [
      | inr same ↦ rw same a
      | inl (passed, effect) ↦
          let old = revocable_step v (find lease_key lease_id s.leases) passed in
          rw effect (
            written-Accounts k lease_id revoke_event (v +ℤ pos 1) now reason
              (update (λ r. lease_key r == lease_id) (set_revoked (v +ℤ pos 1) now) s.leases) s a
              (inr (v, old, refl))
              (λ e. ground (
                arith,
                find-set_revoked k lease_id (v +ℤ pos 1) now s.leases,
                eq_iff lease_id k,
                old,
              ))
              (λ e. ground (arith, find-set_revoked k lease_id (v +ℤ pos 1) now s.leases)))
    ]

perform_all-keeps :
    (calls : List Call) (k : String) (s : AuthorityStore)
    → Accounts k s
    → Accounts k (perform_all calls s)
unfolding perform_all
perform_all-keeps [] k s a = a
perform_all-keeps (c ∷ calls) k s a =
    perform_all-keeps calls k (perform c s) (perform-Accounts c k s a)

-- After any history of a new store, and for every lease, the revisions in its audit events go up
-- by exactly one from event to event, and the last of them is the revision that is stored; a lease
-- with no row has no event.
pub perform_all-Accounts :
    (calls : List Call) (robot_id k : String) → Accounts k (perform_all calls (open_store robot_id))
unfolding revisions
perform_all-Accounts calls robot_id k =
    perform_all-keeps calls k (open_store robot_id)
      (unfold events_of select find in record { consecutive = tt; latest = refl })
