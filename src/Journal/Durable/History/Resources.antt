-- ===== src/Journal/Durable/History/Resources.antt =====
-- Resources that an open assignment holds.
use ump.Prelude.{
  String, ◌≡◌, refl, sym, ◌∙◌, ap, true, false, some, List, [], ◌∷◌, ◌++◌, ok, err, ◌==◌, is_some,
  elem, arith, eq_iff, Bool-cases, Result-cases, some-injective, subst, inl, inr, ◌⊎◌,
  if◌then◌else◌,
}
use ump.Prelude.Int.{ℤ}
use ump.Prelude.Table.{find, find-append, find-select}
use ump.Models.Json.{Json}
use ump.Models.Status.{AssignmentStatus}
use ump.Models.Step.{Assignment}
use ump.Models.Outcome.{Outcome, is_unknown}
use ump.Models.Codec.{outcome_payload}
use ump.Journal.Claim.{JournalError}
use ump.Journal.Durable.{
  Journal, AssignmentRow, ReservationRow, assignment_key, reservation_key, claim, complete, restart,
  resolve_unknown, reservation, reserve, release, write_resolution, write_outcome,
}
use ump.Journal.Durable.History.{
  Call, claiming, completing, resolving, restarting, perform, perform_all,
}
use ump.Journal.Durable.History.Rows.{
  row_of, Kept, perform-Kept, perform_all-Kept, resolve_cases, unknown_document, unknown-payload,
  row_of-write_outcome,
}

-- The assignment `k` has the reservation of a resource.
pub record Holds (k resource : String) (j : Journal) : Type 0 where
  pub row : ReservationRow
  pub reserved : find reservation_key resource j.reservations ≡ some row
  pub owner : row.assignment_id ≡ k

-- The assignment has no outcome, or the outcome that nobody knows what happened.
abbrev pub IsOpen : AssignmentRow → Type 0
IsOpen r = (d : Json) → r.outcome_json ≡ some d → unknown_document d ≡ true

reserve-keeps :
    (resource id : String) (now : ℤ) (names : List String) (rows : List ReservationRow)
    (x : ReservationRow) {out : List ReservationRow}
    → find reservation_key resource rows ≡ some x
    → reserve names id now rows ≡ ok out
    → find reservation_key resource out ≡ some x
unfolding reserve
reserve-keeps resource id t [] rows x h e = ground arith
reserve-keeps resource id t (n ∷ names) rows x {out} h e =
    elim (Bool-cases (is_some (find reservation_key n rows))) [
      | inl taken ↦ ground arith
      | inr free ↦ reserve-keeps resource id t names _ x (rw find-append (rw h)) (rw free at e)
    ]

pub reserve-holds :
    (resource id : String) (now : ℤ) (names : List String) (rows : List ReservationRow)
    {out : List ReservationRow}
    → elem resource names ≡ true
    → reserve names id now rows ≡ ok out
    → (x : ReservationRow) × (find reservation_key resource out ≡ some x) × (x.assignment_id ≡ id)
unfolding reserve
reserve-holds resource id t [] rows h e = cc
reserve-holds resource id t (n ∷ names) rows h e =
    elim (Bool-cases (is_some (find reservation_key n rows))) [
      | inl taken ↦ let impossible = rw taken at e in cc
      | inr free ↦ elim (Bool-cases (n == resource)) [
        | inl same ↦
            let added = reservation n id t in
            let first : find reservation_key resource (rows ++ added ∷ []) ≡ some added =
              rw find-append (ground (arith, eq_iff n resource, free)) in
            (added, reserve-keeps resource id t names _ added first (rw free at e), refl)
        | inr other ↦ reserve-holds resource id t names _ (rw other at h) (rw free at e)
      ]
    ]

module _ (digest : Json → String) (resource : String) (a : Assignment) (issuer_id : String)
    (now : ℤ) (j : Journal) (x : ReservationRow)
    (reserved : find reservation_key resource j.reservations ≡ some x) where
  claim_reserved :
      (rows : List ReservationRow)
      → reserve a.step.resources a.assignment_id now j.reservations ≡ ok rows
      → find reservation_key resource (claim digest a issuer_id now j).1.reservations ≡ some x
  unfolding claim
  claim_reserved rows p = ground (
    arith,
    p,
    reserved,
    reserve-keeps resource a.assignment_id now a.step.resources j.reservations x {out = rows}
        reserved p,
  )

  claim_kept :
      (e : JournalError)
      → reserve a.step.resources a.assignment_id now j.reservations ≡ err e
      → find reservation_key resource (claim digest a issuer_id now j).1.reservations ≡ some x
  unfolding claim
  claim_kept e p = ground (arith, p, reserved)

-- a claim that reserves nothing for another keeps the reservation of `resource`
Holds-claim :
    (digest : Json → String) (k resource : String) (a : Assignment) (issuer_id : String) (now : ℤ)
    (j : Journal)
    → Holds k resource j
    → Holds k resource (claim digest a issuer_id now j).1
Holds-claim digest k resource a i t j h = record {
  row = h.row;
  reserved = elim (Result-cases (reserve a.step.resources a.assignment_id t j.reservations)) [
    | inl (rows, p) ↦ claim_reserved digest resource a i t j h.row h.reserved rows p
    | inr (e, p) ↦ claim_kept digest resource a i t j h.row h.reserved e p
  ];
  owner = h.owner;
}

-- DELETE for another assignment keeps it too
Holds-release :
    (k resource id : String) (j : Journal)
    → Holds k resource j
    → (id == k) ≡ false
    → (x : ReservationRow) × (find reservation_key resource (release id j.reservations) ≡ some x)
      × (x.assignment_id ≡ k)
unfolding release
Holds-release k resource id j h other = (
  h.row,
  find-select reservation_key resource _ j.reservations h.row h.reserved
      (ground (arith, h.owner, eq_iff h.row.assignment_id id, eq_iff id k)),
  h.owner,
)

-- A completion leaves the journal alone, or writes the outcome and releases unless it is unknown.
complete_cases :
    (digest : Json → String) (a : Assignment) (o : Outcome) (now : ℤ) (j : Journal)
    → ((complete digest a o now j).1 ≡ j)
      ⊎ (((complete digest a o now j).1.assignments
            ≡ write_outcome a.assignment_id o.status (outcome_payload o) now j.assignments)
          × ((complete digest a o now j).1.reservations ≡ (
              if is_unknown o.status
              then j.reservations
              else release a.assignment_id j.reservations)))
unfolding complete
complete_cases digest a o t j = ground arith

module _ (k resource : String) (j : Journal) (r : AssignmentRow) (at_k : row_of k j ≡ some r)
    (h : Holds k resource j) where
  pub Holds-complete :
      (digest : Json → String) (a : Assignment) (o : Outcome) (now : ℤ) (r' : AssignmentRow)
      → row_of k (complete digest a o now j).1 ≡ some r'
      → IsOpen r'
      → Holds k resource (complete digest a o now j).1
  Holds-complete digest a o t r' after open_after = elim (complete_cases digest a o t j) [
    | inl same ↦ rw same h
    | inr (rows, kept) ↦ elim (Bool-cases (is_unknown o.status)) [
      | inl u ↦ record { row = h.row; reserved = rw (kept, u) h.reserved; owner = h.owner }
      | inr u ↦ elim (Bool-cases (a.assignment_id == k)) [
        | inl e ↦
            let written =
              row_of-write_outcome k r j at_k a.assignment_id o.status (outcome_payload o) t in
            let stored : r'.outcome_json ≡ some (outcome_payload o) =
              ground (arith, e, written, after, ap (find assignment_key k) rows) in
            absurd (cc (open_after (outcome_payload o) stored, unknown-payload o, u))
        | inr e ↦
            let (x, found, owned) = Holds-release k resource a.assignment_id j h e in
            record { row = x; reserved = rw (kept, u) found; owner = owned }
      ]
    ]
  ]

  Holds-resolve_unknown :
      (id : String) (status : AssignmentStatus) (description resolver evidence : String) (now : ℤ)
      (r' : AssignmentRow)
      → row_of k (resolve_unknown id status description resolver evidence now j).1 ≡ some r'
      → IsOpen r'
      → Holds k resource (resolve_unknown id status description resolver evidence now j).1
  Holds-resolve_unknown id status description resolver evidence t r' after open_after =
      elim (resolve_cases id status description resolver evidence t j) [
        | inl same ↦ rw same h
        | inr (row, d, old, none_yet, known, effect) ↦ elim (Bool-cases (id == k)) [
          | inl e ↦
              let written = row_of-write_outcome k r j at_k id status d t in
              let stored : r'.outcome_json ≡ some d =
                unfold write_resolution in
                ground (arith, e, written, after, ap (λ (t : Journal). row_of k t) effect) in
              absurd (cc (open_after d stored, known))
          | inr e ↦
              let (x, found, owned) = Holds-release k resource id j h e in
              record {
                row = x;
                reserved = rw effect (unfold write_resolution in found);
                owner = owned;
              }
        ]
      ]

  perform-Holds :
      (digest : Json → String) (c : Call) (r' : AssignmentRow)
      → row_of k (perform digest c j) ≡ some r'
      → IsOpen r'
      → Holds k resource (perform digest c j)
  unfolding perform restart
  perform-Holds digest (claiming a issuer now) r' after o =
      Holds-claim digest k resource a issuer now j h
  perform-Holds digest (completing a out now) r' after o =
      Holds-complete digest a out now r' after o
  perform-Holds digest (resolving id status description resolver evidence now) r' after o =
      Holds-resolve_unknown id status description resolver evidence now r' after o
  perform-Holds digest restarting r' after o = record {
    row = h.row;
    reserved = h.reserved;
    owner = h.owner;
  }

IsOpen-before : {r r' : AssignmentRow} → Kept r r' → IsOpen r' → IsOpen r
IsOpen-before kept o d h = o d (kept.outcome d h)

pub perform_all-Holds :
    (digest : Json → String) (k resource : String) (calls : List Call) (j : Journal)
    (r r' : AssignmentRow)
    → row_of k j ≡ some r
    → Holds k resource j
    → row_of k (perform_all digest calls j) ≡ some r'
    → IsOpen r'
    → Holds k resource (perform_all digest calls j)
unfolding perform_all
perform_all-Holds digest k resource [] j r r' at_k h after o = h
perform_all-Holds digest k resource (c ∷ calls) j r r' at_k h after o =
    let (m, at_m, _) = perform-Kept digest c k r j at_k in
    let (r'', at_end, kept) = perform_all-Kept digest calls k m (perform digest c j) at_m in
    let same : r' ≡ r'' = some-injective (sym after ∙ at_end) in
    let open_m : IsOpen m = IsOpen-before kept (subst IsOpen same o) in
    perform_all-Holds digest k resource calls (perform digest c j) m r' at_m
      (perform-Holds k resource j r at_k h digest c m at_m open_m) after o
