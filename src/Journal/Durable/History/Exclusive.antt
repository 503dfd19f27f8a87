-- ===== src/Journal/Durable/History/Exclusive.antt =====
-- What the open assignment of a resource keeps others from, over histories of the journal of
-- journal.py.
use ump.Prelude.{
  String, ◌≡◌, ◌≢◌, refl, sym, ◌∙◌, ap, true, not, Bool, some, List, [], ◌∷◌, ok, err, ◌==◌, ◌&&◌,
  any, elem, arith, eq_iff, Result-cases, some-injective, inl, inr,
}
use ump.Prelude.Int.{ℤ}
use ump.Prelude.Table.{find, find-key}
use ump.Models.Json.{Json}
use ump.Models.Status.{AssignmentStatus}
use ump.Models.Step.{Assignment}
use ump.Models.Outcome.{Outcome, is_unknown}
use ump.Models.Codec.{outcome_payload}
use ump.Journal.Claim.{JournalError, new}
use ump.Journal.Durable.{
  Journal, AssignmentRow, ReservationRow, reservation_key, claimed, accepted_row, claim, complete,
  resolve_unknown, resolve_body, reserve,
}
use ump.Journal.Durable.History.{Call, perform_all}
use ump.Journal.Durable.History.Rows.{row_of, perform_all-Kept, unknown_document, unknown-payload}
use ump.Journal.Durable.History.Once.{claim-inserts, complete-stores}
use ump.Journal.Durable.History.Resources.{
  Holds, IsOpen, reserve-holds, Holds-complete, perform_all-Holds,
}

module _ (digest : Json → String) (a : Assignment) (issuer_id : String) (now : ℤ)
    (j : Journal) where
  new_reservations :
      (rows : List ReservationRow)
      → (claim digest a issuer_id now j).0 ≡ ok (claimed new)
      → reserve a.step.resources a.assignment_id now j.reservations ≡ ok rows
      → (claim digest a issuer_id now j).1.reservations ≡ rows
  unfolding claim
  new_reservations rows first p = ground arith

  no_reservations :
      (e : JournalError)
      → (claim digest a issuer_id now j).0 ≡ ok (claimed new)
      → reserve a.step.resources a.assignment_id now j.reservations ≡ err e
      → ⊥
  unfolding claim
  no_reservations e first p = ground arith

  conflict_refuses :
      any
          (λ r. elem r.resource_id a.step.resources && not (r.assignment_id == a.assignment_id))
          j.reservations
        ≡ true
      → (claim digest a issuer_id now j).0 ≢ ok (claimed new)
  unfolding claim
  conflict_refuses c first = ground arith

-- a new claim has its reservations
claim-Holds :
    (digest : Json → String) (a : Assignment) (issuer_id resource : String) (now : ℤ) (j : Journal)
    → (claim digest a issuer_id now j).0 ≡ ok (claimed new)
    → elem resource a.step.resources ≡ true
    → Holds a.assignment_id resource (claim digest a issuer_id now j).1
claim-Holds digest a i resource t j first needed =
    elim (Result-cases (reserve a.step.resources a.assignment_id t j.reservations)) [
      | inl (rows, p) ↦
          let (x, found, owned) =
            reserve-holds resource a.assignment_id t a.step.resources j.reservations {out = rows}
              needed p in
          record {
            row = x;
            reserved = rw (new_reservations digest a i t j rows first p) found;
            owner = owned;
          }
      | inr (e, p) ↦ absurd (no_reservations digest a i t j e first p)
    ]

any-find :
    (resource : String) (p : ReservationRow → Bool) (rows : List ReservationRow)
    (x : ReservationRow)
    → find reservation_key resource rows ≡ some x
    → p x ≡ true
    → any p rows ≡ true
unfolding find
any-find resource p [] x h e = cc
any-find resource p (y ∷ rows) x h e =
    ground (arith, any-find resource p rows x, ap p {x = y} {y = x})

-- a held resource refuses every other assignment
Holds-refuses :
    (digest : Json → String) (k resource : String) (b : Assignment) (issuer_id : String) (now : ℤ)
    (j : Journal)
    → Holds k resource j
    → b.assignment_id ≢ k
    → elem resource b.step.resources ≡ true
    → (claim digest b issuer_id now j).0 ≢ ok (claimed new)
Holds-refuses digest k resource b i t j h other needed = conflict_refuses digest b i t j (
    any-find resource _ j.reservations h.row h.reserved (
      ground (
        arith,
        find-key reservation_key resource j.reservations h.row h.reserved,
        h.owner,
        ap (λ (n : String). elem n b.step.resources)
            (find-key reservation_key resource j.reservations h.row h.reserved),
        eq_iff h.row.assignment_id b.assignment_id,
      )))

-- After a claim of `a` that was answered `new` and any calls and restarts, as long as `a` has no
-- outcome or the unknown one, no claim of another assignment that needs a resource of `a` is
-- answered `new`.
pub claim-exclusive :
    (digest : Json → String) (a b : Assignment) (issuer_id issuer_id' resource : String)
    (now now' : ℤ) (calls : List Call) (j : Journal) (r : AssignmentRow)
    → (claim digest a issuer_id now j).0 ≡ ok (claimed new)
    → elem resource a.step.resources ≡ true
    → elem resource b.step.resources ≡ true
    → b.assignment_id ≢ a.assignment_id
    → row_of a.assignment_id (perform_all digest calls (claim digest a issuer_id now j).1) ≡ some r
    → IsOpen r
    → (claim digest b issuer_id' now'
        (perform_all digest calls (claim digest a issuer_id now j).1)).0
      ≢ ok (claimed new)
claim-exclusive digest a b i i' resource t t' calls j r first of_a of_b other after o =
    Holds-refuses digest a.assignment_id resource b i' t'
      (perform_all digest calls (claim digest a i t j).1)
      (perform_all-Holds digest a.assignment_id resource calls (claim digest a i t j).1
        (accepted_row digest a i t) r (claim-inserts digest a i t j first)
        (claim-Holds digest a i resource t j first of_a) after o)
      other of_b

-- a row with an outcome cannot be resolved
resolve-completed :
    (k : String) (status : AssignmentStatus) (description resolver evidence : String) (now : ℤ)
    (j : Journal) (r : AssignmentRow) (d : Json) (out : Outcome)
    → row_of k j ≡ some r
    → r.outcome_json ≡ some d
    → (resolve_unknown k status description resolver evidence now j).0 ≢ ok out
unfolding resolve_unknown resolve_body
resolve-completed k status description resolver evidence t j r d out h e done = ground arith

-- After a claim of `a` that was answered `new` and a completion of `a` with an outcome of status
-- `unknown` that returned, `resolve_unknown` of `a` never returns, and no claim of another
-- assignment that needs a resource of `a` is answered `new`, whatever calls and restarts follow.
pub unknown_outcome_stuck :
    (digest : Json → String) (a b : Assignment) (issuer_id issuer_id' resource : String)
    (now completed_at now' : ℤ) (calls : List Call) (o out : Outcome) (j : Journal)
    (status : AssignmentStatus) (description resolver evidence : String)
    → (claim digest a issuer_id now j).0 ≡ ok (claimed new)
    → (complete digest a o completed_at (claim digest a issuer_id now j).1).0 ≡ ok tt
    → o.status ≡ AssignmentStatus.unknown
    → elem resource a.step.resources ≡ true
    → elem resource b.step.resources ≡ true
    → b.assignment_id ≢ a.assignment_id
    → ((resolve_unknown a.assignment_id status description resolver evidence now' (
          perform_all digest calls
            (complete digest a o completed_at (claim digest a issuer_id now j).1).1)).0
        ≢ ok out)
      × ((claim digest b issuer_id' now' (
            perform_all digest calls
              (complete digest a o completed_at (claim digest a issuer_id now j).1).1)).0
          ≢ ok (claimed new))
unknown_outcome_stuck digest a b i i' resource t t₁ t' calls o out j status description resolver
      evidence first done u of_a of_b other =
    let k = a.assignment_id in
    let j₁ = (claim digest a i t j).1 in
    let j₂ = (complete digest a o t₁ j₁).1 in
    let at₁ = claim-inserts digest a i t j first in
    let at₂ = complete-stores digest a i o t₁ j₁ (accepted_row digest a i t) at₁ done in
    let stays : unknown_document (outcome_payload o) ≡ true = unknown-payload o ∙ ap is_unknown u in
    let h₂ =
      Holds-complete k resource j₁ (accepted_row digest a i t) at₁
        (claim-Holds digest a i resource t j first of_a) digest a o t₁ _ at₂
        (λ d e. ap unknown_document (sym (some-injective e)) ∙ stays) in
    let (r, at₃, kept) = perform_all-Kept digest calls k _ j₂ at₂ in
    let stored = kept.outcome (outcome_payload o) refl in
    let open_r : IsOpen r = λ d e. ap unknown_document (some-injective (sym e ∙ stored)) ∙ stays in
    (
      resolve-completed k status description resolver evidence t' (perform_all digest calls j₂) r
          (outcome_payload o) out at₃ stored,
      Holds-refuses digest k resource b i' t' (perform_all digest calls j₂)
          (perform_all-Holds digest k resource calls j₂ _ r at₂ h₂ at₃ open_r) other of_b,
    )
