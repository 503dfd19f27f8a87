-- ===== src/Journal/Durable/History/Once.antt =====
-- Claims of one assignment over histories of `SqliteAssignmentJournal` in journal.py.
use ump.Prelude.{String, ◌≡◌, ◌≢◌, refl, ◌∙◌, some, List, ok, arith, eq_refl}
use ump.Prelude.Int.{ℤ}
use ump.Prelude.Table.{find-append}
use ump.Models.Json.{Json}
use ump.Models.Step.{Assignment}
use ump.Models.Outcome.{Outcome, outcome_post_init}
use ump.Models.Codec.{outcome_payload}
use ump.Models.Codec.RoundTrip.{decode_outcome-outcome_payload}
use ump.Journal.Claim.{new, replay, assignment_fingerprint}
use ump.Journal.Durable.{
  Journal, AssignmentRow, assignment_key, claimed, claim_old, accepted_row, claim, complete,
  set_outcome,
}
use ump.Journal.Durable.History.{Call, perform_all}
use ump.Journal.Durable.History.Rows.{row_of, perform_all-Kept, row_of-write_outcome}

module _ (digest : Json → String) (a : Assignment) (issuer_id : String) where
  -- a claim of an assignment whose row is the claimer's
  pub claim-own :
      (now : ℤ) (j : Journal) (r : AssignmentRow)
      → row_of a.assignment_id j ≡ some r
      → r.fingerprint ≡ assignment_fingerprint digest a
      → r.issuer_id ≡ some issuer_id
      → (claim digest a issuer_id now j).0 ≡ claim_old r.outcome_json
  unfolding claim
  claim-own now j r h f i =
      ground (arith, eq_refl issuer_id, eq_refl (assignment_fingerprint digest a))

  -- a claim is new only where there is no row
  pub claim-not_new :
      (now : ℤ) (j : Journal) (r : AssignmentRow)
      → row_of a.assignment_id j ≡ some r
      → (claim digest a issuer_id now j).0 ≢ ok (claimed new)
  unfolding claim
  claim-not_new now j r h e = ground arith

  -- a new claim inserts the row
  pub claim-inserts :
      (now : ℤ) (j : Journal)
      → (claim digest a issuer_id now j).0 ≡ ok (claimed new)
      → row_of a.assignment_id (claim digest a issuer_id now j).1
        ≡ some (accepted_row digest a issuer_id now)
  unfolding claim
  claim-inserts now j h = ground (
    arith,
    find-append assignment_key a.assignment_id j.assignments (accepted_row digest a issuer_id now),
    eq_refl a.assignment_id,
  )

  -- a completion that returned has stored its outcome
  pub complete-stores :
      (o : Outcome) (now : ℤ) (j : Journal) (r : AssignmentRow)
      → row_of a.assignment_id j ≡ some r
      → (complete digest a o now j).0 ≡ ok tt
      → row_of a.assignment_id (complete digest a o now j).1
        ≡ some (set_outcome o.status (outcome_payload o) now r)
  unfolding complete
  complete-stores o now j r h done = ground (
    arith,
    row_of-write_outcome a.assignment_id r j h a.assignment_id o.status (outcome_payload o) now,
    eq_refl a.assignment_id,
  )

-- After a claim that was answered `new`, no claim of the same assignment identifier is ever
-- answered `new` again: not for another content or another issuer, and not after any claims,
-- completions, resolutions and restarts.
pub claim-new_once :
    (digest : Json → String) (a b : Assignment) (issuer_id issuer_id' : String) (now now' : ℤ)
    (calls : List Call) (j : Journal)
    → (claim digest a issuer_id now j).0 ≡ ok (claimed new)
    → b.assignment_id ≡ a.assignment_id
    → (claim digest b issuer_id' now'
        (perform_all digest calls (claim digest a issuer_id now j).1)).0
      ≢ ok (claimed new)
claim-new_once digest a b i i' t t' calls j first same =
    let row = claim-inserts digest a i t j first in
    let (r, later, _) =
      perform_all-Kept digest calls a.assignment_id (accepted_row digest a i t)
        (claim digest a i t j).1 row in
    claim-not_new digest b i' t' (perform_all digest calls (claim digest a i t j).1) r
      (rw same later)

-- After a claim that was answered `new`, any calls, a completion of the assignment that returned,
-- and any further calls, restarts included, the claimer's next claim of the assignment replays
-- exactly the completed outcome, if that outcome passes the checks of its constructor.
pub claim-replays :
    (digest : Json → String) (a : Assignment) (issuer_id : String) (now completed_at now' : ℤ)
    (before after : List Call) (o : Outcome) (j : Journal)
    → outcome_post_init o ≡ ok tt
    → (claim digest a issuer_id now j).0 ≡ ok (claimed new)
    → (complete digest a o completed_at
        (perform_all digest before (claim digest a issuer_id now j).1)).0
      ≡ ok tt
    → (claim digest a issuer_id now' (
        perform_all digest after
          (complete digest a o completed_at
            (perform_all digest before (claim digest a issuer_id now j).1)).1)).0
      ≡ ok (record { kind = replay; outcome = some o })
claim-replays digest a i t t₁ t' before after o j valid first done =
    let j₁ = perform_all digest before (claim digest a i t j).1 in
    let j₂ = (complete digest a o t₁ j₁).1 in
    let (r, at₁, kept) =
      perform_all-Kept digest before a.assignment_id (accepted_row digest a i t)
        (claim digest a i t j).1 (claim-inserts digest a i t j first) in
    let at₂ = complete-stores digest a i o t₁ j₁ r at₁ done in
    let (r', at₃, later) = perform_all-Kept digest after a.assignment_id _ j₂ at₂ in
    claim-own digest a i t' (perform_all digest after j₂) r' at₃
      (later.fingerprint ∙ kept.fingerprint) (later.issuer ∙ kept.issuer)
    ∙ rw (later.outcome (outcome_payload o) refl, decode_outcome-outcome_payload o valid)
