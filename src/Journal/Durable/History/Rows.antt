-- ===== src/Journal/Durable/History/Rows.antt =====
-- What each call may do to the row of one assignment.
use ump.Prelude.{
  String, ◌≡◌, refl, sym, ◌∙◌, ap, ◌⊎◌, inl, inr, Bool, false, not, ◌||◌, ◌&&◌, Option, none, some,
  List, [], ◌∷◌, ok, is_some, ◌==◌, if◌then◌else◌, arith, eq_iff, Bool-cases, Result-cases,
  >>=-eq-ok, refuse-eq-ok, ok-injective, refuse, Done,
}
use ump.Prelude.Int.{ℤ}
use ump.Prelude.Table.{find, find-update, find-append, find-key}
use ump.Models.Json.{Json, obj, end, text, get, json_eq→eq}
use ump.Models.Status.{AssignmentStatus}
use ump.Models.Step.{Assignment}
use ump.Models.Outcome.{Outcome, is_accepted, is_unknown, is_succeeded, make_outcome}
use ump.Models.Codec.{outcome_payload, decode_assignment, status_value}
use ump.Journal.Claim.{only_unknown_resolved, integrity_error, validate_resolution}
use ump.Journal.Durable.{
  Journal, AssignmentRow, assignment_key, claim, complete, resolve_unknown, restart, write_outcome,
  set_outcome, accepted_row, holds_other, existing, resolve_body, write_resolution, stored_document,
  lift_model, resolution_key,
}
use ump.Journal.Durable.History.{
  Call, claiming, completing, resolving, restarting, perform, perform_all,
}

-- the row for `k` in a journal
abbrev pub row_of : String → Journal → Option AssignmentRow
row_of k j = find assignment_key k j.assignments

-- What no call changes in a row: its identity, and its outcome once there is one.
pub record Kept (old new : AssignmentRow) : Type 0 where
  pub fingerprint : new.fingerprint ≡ old.fingerprint
  pub issuer : new.issuer_id ≡ old.issuer_id
  pub assignment : new.assignment_json ≡ old.assignment_json
  pub outcome : (d : Json) → old.outcome_json ≡ some d → new.outcome_json ≡ some d

pub Kept-refl : (r : AssignmentRow) → Kept r r
Kept-refl r = record { fingerprint = refl; issuer = refl; assignment = refl; outcome = λ d h. h }

pub Kept-trans : {a b c : AssignmentRow} → Kept a b → Kept b c → Kept a c
Kept-trans p q = record {
  fingerprint = q.fingerprint ∙ p.fingerprint;
  issuer = q.issuer ∙ p.issuer;
  assignment = q.assignment ∙ p.assignment;
  outcome = λ d h. q.outcome d (p.outcome d h);
}

existing-eq-ok :
    (o : Option AssignmentRow) (row : AssignmentRow) → existing o ≡ ok row → o ≡ some row
existing-eq-ok o row h = ground arith

no_outcome :
    (row : AssignmentRow) (b : Bool)
    → (b || is_some row.outcome_json) ≡ false
    → row.outcome_json ≡ none
no_outcome row b h = ground arith

-- `AssignmentStatus.UNKNOWN` in a stored outcome document
abbrev says_unknown : Option Json → Bool
says_unknown (some (text s)) = s == "unknown"
says_unknown _ = false

abbrev pub unknown_document : Json → Bool
unknown_document (obj fs) = says_unknown (get "status" fs)
unknown_document _ = false

unknown_value : (s : AssignmentStatus) → (status_value s == "unknown") ≡ is_unknown s
unknown_value AssignmentStatus.accepted = refl
unknown_value AssignmentStatus.succeeded = refl
unknown_value AssignmentStatus.failed = refl
unknown_value AssignmentStatus.rejected = refl
unknown_value AssignmentStatus.cancelled = refl
unknown_value AssignmentStatus.unknown = refl

pub unknown-payload : (o : Outcome) → unknown_document (outcome_payload o) ≡ is_unknown o.status
unfolding outcome_payload get
unknown-payload o = unknown_value o.status

made_status :
    (id robot : String) (succeeded : Bool) (description : String) (status : AssignmentStatus)
    (o : Outcome)
    → lift_model (make_outcome id robot succeeded description (some status) (obj end)) ≡ ok o
    → o.status ≡ status
unfolding make_outcome
made_status id robot succeeded description status o h = ground arith

known_terminal :
    (status : AssignmentStatus) (resolver evidence : String) {u : Done}
    → validate_resolution status resolver evidence ≡ ok u
    → is_unknown status ≡ false
unfolding validate_resolution
known_terminal status resolver evidence h = ground arith

module _ (id : String) (status : AssignmentStatus) (description resolver evidence : String)
    (now : ℤ) (j : Journal) where
  -- what a resolution that returned found and wrote
  resolve_body-eq-ok :
      (o : Outcome) (t : Journal)
      → resolve_body id status description resolver evidence now j ≡ ok (o, t)
      → (row : AssignmentRow) × (d : Json) × (row_of id j ≡ some row)
        × (row.outcome_json ≡ none)
        × (unknown_document d ≡ is_unknown status)
        × (write_resolution id status d resolver evidence now j ≡ t)
  unfolding resolve_body
  resolve_body-eq-ok o t h =
      let (row, found, h₁) = >>=-eq-ok (existing (row_of id j)) _ h in
      let (_, fresh, h₂) =
        >>=-eq-ok
          (refuse (not (is_unknown row.status) || is_some row.outcome_json) only_unknown_resolved) _
          h₁ in
      let (document, _, h₃) = >>=-eq-ok (stored_document row.assignment_json) _ h₂ in
      let (a, _, h₄) = >>=-eq-ok (lift_model (decode_assignment document)) _ h₃ in
      let (outcome, made, h₅) =
        >>=-eq-ok
          (lift_model (
            make_outcome id a.step.assigned_robot_id (is_succeeded status) description (some status)
              (obj end)))
          _ h₄ in
      let (_, _, h₆) =
        >>=-eq-ok (refuse (is_some (find resolution_key id j.resolutions)) integrity_error) _ h₅ in
      (
        row,
        outcome_payload outcome,
        existing-eq-ok (row_of id j) row found,
        no_outcome row (not (is_unknown row.status)) (refuse-eq-ok _ only_unknown_resolved fresh),
        unknown-payload outcome
            ∙ ap is_unknown (
                made_status id a.step.assigned_robot_id (is_succeeded status) description status
                  outcome made),
        ap (λ (p : Outcome × Journal). p.1) (ok-injective h₆),
      )

  -- A resolution leaves the journal alone, or writes the outcome of a row that has none.
  pub resolve_cases :
      ((resolve_unknown id status description resolver evidence now j).1 ≡ j)
      ⊎ ((row : AssignmentRow) × (d : Json) × (row_of id j ≡ some row)
          × (row.outcome_json ≡ none)
          × (unknown_document d ≡ false)
          × ((resolve_unknown id status description resolver evidence now j).1
              ≡ write_resolution id status d resolver evidence now j))
  unfolding resolve_unknown
  resolve_cases = elim (Result-cases (validate_resolution status resolver evidence)) [
    | inr (e, p) ↦ inl (rw p)
    | inl (_, p) ↦
        elim (Result-cases (resolve_body id status description resolver evidence now j)) [
          | inr (e, q) ↦ inl (rw (p, q))
          | inl ((o, t), q) ↦
              let (row, d, found, fresh, unknown, written) = resolve_body-eq-ok o t q in
              inr (
                row,
                d,
                found,
                fresh,
                unknown ∙ known_terminal status resolver evidence p,
                rw (p, q) (sym written),
              )
        ]
  ]

module _ (k : String) (r : AssignmentRow) (j : Journal) (at_k : row_of k j ≡ some r) where
  -- A claim changes no row.
  pub row_of-claim :
      (digest : Json → String) (a : Assignment) (issuer_id : String) (now : ℤ)
      → row_of k (claim digest a issuer_id now j).1 ≡ some r
  unfolding claim
  row_of-claim digest a i t =
      ground (arith, find-append assignment_key k j.assignments (accepted_row digest a i t))

  pub row_of-restart :
      row_of k (restart j)
      ≡ some (
          if is_accepted r.status && not (is_some r.outcome_json)
          then record r { status = AssignmentStatus.unknown }
          else r)
  unfolding restart
  row_of-restart =
      rw
        (find-update assignment_key k (λ x. is_accepted x.status && not (is_some x.outcome_json))
          (λ x. record x { status = AssignmentStatus.unknown }) j.assignments (λ x. refl))
        (rw at_k)

  pub row_of-write_outcome :
      (id : String) (status : AssignmentStatus) (d : Json) (now : ℤ)
      → find assignment_key k (write_outcome id status d now j.assignments)
        ≡ some (if id == k then set_outcome status d now r else r)
  unfolding write_outcome
  row_of-write_outcome id status d t =
      rw
        (find-update assignment_key k (λ x. assignment_key x == id) (set_outcome status d t)
          j.assignments (λ x. refl))
        (rw at_k (
          ground (
            arith,
            eq_iff id k,
            eq_iff (assignment_key r) id,
            find-key assignment_key k j.assignments r at_k,
          )))

  -- A completion leaves the row alone, or writes its outcome where there is no other.
  pub row_of-complete :
      (digest : Json → String) (a : Assignment) (o : Outcome) (now : ℤ)
      → (row_of k (complete digest a o now j).1 ≡ some r)
        ⊎ ((row_of k (complete digest a o now j).1
              ≡ some (set_outcome o.status (outcome_payload o) now r))
            × (holds_other r.outcome_json (outcome_payload o) ≡ false))
  unfolding complete
  row_of-complete digest a o t = ground (
    arith,
    row_of-write_outcome a.assignment_id o.status (outcome_payload o) t,
    eq_iff a.assignment_id k,
    at_k,
  )

  -- A resolution leaves the row alone, or writes an outcome where there is none.
  pub row_of-resolve_unknown :
      (id : String) (status : AssignmentStatus) (description resolver evidence : String) (now : ℤ)
      → (row_of k (resolve_unknown id status description resolver evidence now j).1 ≡ some r)
        ⊎ ((d : Json) × (row_of k (resolve_unknown id status description resolver evidence now j).1
              ≡ some (set_outcome status d now r))
            × (r.outcome_json ≡ none))
  row_of-resolve_unknown id status description resolver evidence t =
      elim (resolve_cases id status description resolver evidence t j) [
        | inl same ↦ inl (rw same at_k)
        | inr (row, d, old, none_yet, _, effect) ↦ elim (Bool-cases (id == k)) [
          | inl e ↦ inr (
            d,
            rw effect (unfold write_resolution in rw (row_of-write_outcome, e)),
            ground (arith, eq_iff id k, old, at_k, none_yet),
          )
          | inr e ↦ inl (rw effect (unfold write_resolution in rw (row_of-write_outcome, e)))
        ]
      ]

Kept-set_outcome :
    (r : AssignmentRow) (status : AssignmentStatus) (d : Json) (now : ℤ)
    → holds_other r.outcome_json d ≡ false
    → Kept r (set_outcome status d now r)
Kept-set_outcome r status d t h = record {
  fingerprint = refl;
  issuer = refl;
  assignment = refl;
  outcome = λ c e. ap some (sym (json_eq→eq c d (ground arith)));
}

-- After one call the row is still there, with its identity and its outcome.
pub perform-Kept :
    (digest : Json → String) (c : Call) (k : String) (r : AssignmentRow) (j : Journal)
    → row_of k j ≡ some r
    → (r' : AssignmentRow) × (row_of k (perform digest c j) ≡ some r') × Kept r r'
unfolding perform
perform-Kept digest (claiming a issuer now) k r j h =
    (r, row_of-claim k r j h digest a issuer now, Kept-refl r)
perform-Kept digest (completing a o now) k r j h = elim (row_of-complete k r j h digest a o now) [
  | inl same ↦ (r, same, Kept-refl r)
  | inr (new, agrees) ↦ (_, new, Kept-set_outcome r o.status (outcome_payload o) now agrees)
]
perform-Kept digest (resolving id status description resolver evidence now) k r j h =
    elim (row_of-resolve_unknown k r j h id status description resolver evidence now) [
      | inl same ↦ (r, same, Kept-refl r)
      | inr (d, new, fresh) ↦ (_, new, Kept-set_outcome r status d now (rw fresh))
    ]
perform-Kept digest restarting k r j h =
    elim (Bool-cases (is_accepted r.status && not (is_some r.outcome_json))) [
      | inl e ↦ (
        record r { status = AssignmentStatus.unknown },
        row_of-restart k r j h ∙ rw e,
        record { fingerprint = refl; issuer = refl; assignment = refl; outcome = λ d p. p },
      )
      | inr e ↦ (r, row_of-restart k r j h ∙ rw e, Kept-refl r)
    ]

pub perform_all-Kept :
    (digest : Json → String) (calls : List Call) (k : String) (r : AssignmentRow) (j : Journal)
    → row_of k j ≡ some r
    → (r' : AssignmentRow) × (row_of k (perform_all digest calls j) ≡ some r') × Kept r r'
unfolding perform_all
perform_all-Kept digest [] k r j h = (r, h, Kept-refl r)
perform_all-Kept digest (c ∷ calls) k r j h =
    let (m, h₁, kept) = perform-Kept digest c k r j h in
    let (r', h₂, later) = perform_all-Kept digest calls k m (perform digest c j) h₁ in
    (r', h₂, Kept-trans kept later)
