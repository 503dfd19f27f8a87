-- ===== src/Coordinator/Store/History/Rows.antt =====
-- What each call may do to one step.
use ump.Prelude.{
  String, ◌≡◌, refl, ◌∙◌, ap, ◌⊎◌, inl, inr, Bool, true, false, ◌&&◌, ◌||◌, none, some, List, [],
  ◌∷◌, ◌++◌, ok, err, ◌==◌, is_some, arith, eq_iff, Option-cases, Bool-cases, Result-cases, any,
}
use ump.Prelude.Int.{ℤ}
use ump.Prelude.Table.{find, find-update, find-append, find-key, updated}
use ump.Models.Status.{AssignmentStatus}
use ump.Models.Step.{Assignment}
use ump.Models.Plan.{SharedGoal, Plan}
use ump.Coordinator.Tables.{
  CoordinatorStore, StoreError, StepRow, StepStatus, step_key, is_pending, is_succeeded, is_refused,
  is_closed, row_of, set_step_status, move_steps, refresh_run,
}
use ump.Coordinator.Store.{
  create_run, record_cancellation_acknowledgement, reconcile_outcome, insert_steps, known_outcome,
  transition, move_step, pending_row,
}

-- a step that a robot reported as ended, or that was cancelled
abbrev pub is_settled : StepStatus → Bool
is_settled s = is_succeeded s || is_refused s || is_closed s

-- What no call does to a step: change its identity, leave a settled status, return to pending.
pub record Follows (old new : StepRow) : Type 0 where
  pub plan : new.plan_id ≡ old.plan_id
  pub step : new.step_id ≡ old.step_id
  pub document : new.assignment_json ≡ old.assignment_json
  pub settled : is_settled old.status ≡ true → new.status ≡ old.status
  pub pending : is_pending new.status ≡ true → is_pending old.status ≡ true

pub Follows-refl : (r : StepRow) → Follows r r
Follows-refl r = record {
  plan = refl;
  step = refl;
  document = refl;
  settled = λ _. refl;
  pending = λ h. h;
}

pub Follows-trans : {a b c : StepRow} → Follows a b → Follows b c → Follows a c
Follows-trans p q = record {
  plan = q.plan ∙ p.plan;
  step = q.step ∙ p.step;
  document = q.document ∙ p.document;
  settled = λ h. ground (arith, p.settled h, q.settled, ap is_settled (p.settled h));
  pending = λ h. p.pending (q.pending h);
}

-- a write of a status that is not pending, over one that is not settled
pub Follows-set :
    (r : StepRow) (status : StepStatus) (now : ℤ)
    → is_settled r.status ≡ false
    → is_pending status ≡ false
    → Follows r (set_step_status status now r)
Follows-set r status t h p = record {
  plan = refl;
  step = refl;
  document = refl;
  settled = λ e. ground arith;
  pending = λ e. ground arith;
}

-- the row after `move_steps`
pub row_of-move_steps :
    (k : String) (p : StepRow → Bool) (status : StepStatus) (now : ℤ) (s : CoordinatorStore)
    → row_of k (move_steps p status now s) ≡ updated p (set_step_status status now) (row_of k s)
unfolding move_steps
row_of-move_steps k p status t s =
    find-update step_key k p (set_step_status status t) s.steps (λ r. refl)

-- The step of `k` after a call.
abbrev pub Next : String → StepRow → CoordinatorStore → Type 0
Next k r s = (r' : StepRow) × (row_of k s ≡ some r') × Follows r r'

module _ (k : String) (r : StepRow) (s : CoordinatorStore) (at_k : row_of k s ≡ some r) where
  stays : (t : CoordinatorStore) → row_of k t ≡ row_of k s → Next k r t
  stays t same = (r, same ∙ at_k, Follows-refl r)

  -- a move of steps that are not settled
  pub Next-move_steps :
      (p : StepRow → Bool) (status : StepStatus) (now : ℤ)
      → (p r ≡ true → is_settled r.status ≡ false)
      → is_pending status ≡ false
      → Next k r (move_steps p status now s)
  Next-move_steps p status t only not_pending = elim (Bool-cases (p r)) [
    | inl e ↦ (
      set_step_status status t r,
      row_of-move_steps k p status t s ∙ rw at_k (rw e),
      Follows-set r status t (only e) not_pending,
    )
    | inr e ↦ (r, row_of-move_steps k p status t s ∙ rw at_k (rw e), Follows-refl r)
  ]

  -- a move of the one step that a call looked up
  Next-move_step :
      (id : String) (row : StepRow) (status : StepStatus) (now : ℤ)
      → row_of id s ≡ some row
      → is_settled row.status ≡ false
      → is_pending status ≡ false
      → Next k r (move_step row status now s)
  unfolding move_step
  Next-move_step id row status t found loose not_pending =
      Next-move_steps (λ x. step_key x == row.assignment_id) status t
        (λ e. ground (
          arith,
          eq_iff (step_key r) row.assignment_id,
          find-key step_key k s.steps r at_k,
          find-key step_key id s.steps row found,
          found,
          at_k,
        ))
        not_pending

insert_steps-keeps :
    (k : String) (plan : Plan) (assignments : List Assignment) (now : ℤ) (rows : List StepRow)
    (r : StepRow) {out : List StepRow}
    → find step_key k rows ≡ some r
    → insert_steps plan assignments now rows ≡ ok out
    → find step_key k out ≡ some r
unfolding insert_steps
insert_steps-keeps k plan [] t rows r h e = ground arith
insert_steps-keeps k plan (a ∷ rest) t rows r {out} h e =
    elim (Bool-cases (
      is_some (find step_key a.assignment_id rows)
      || any (λ x. x.plan_id == plan.plan_id && x.step_id == a.step.step_id) rows)) [
        | inl taken ↦ let impossible = rw taken at e in cc
        | inr free ↦
            insert_steps-keeps k plan rest t (rows ++ pending_row plan a t ∷ []) r
              (rw find-append (rw h)) (rw free at e)
      ]

module _ (k : String) (r : StepRow) (s : CoordinatorStore) (at_k : row_of k s ≡ some r) where
  pub Next-create_run :
      (goal : SharedGoal) (plan : Plan) (assignments : List Assignment) (now : ℤ)
      → Next k r (create_run goal plan assignments now s).1
  Next-create_run goal plan assignments t =
      elim (Result-cases (insert_steps plan assignments t s.steps)) [
        | inl (rows, p) ↦ (r, inserted rows p, Follows-refl r)
        | inr (e, p) ↦ (r, refused e p, Follows-refl r)
      ]
    where
      inserted :
          (rows : List StepRow)
          → insert_steps plan assignments t s.steps ≡ ok rows
          → row_of k (create_run goal plan assignments t s).1 ≡ some r
      inserted rows p =
          unfold create_run in
          ground (arith, p, insert_steps-keeps k plan assignments t s.steps r {out = rows} at_k p)

      refused :
          (e : StoreError)
          → insert_steps plan assignments t s.steps ≡ err e
          → row_of k (create_run goal plan assignments t s).1 ≡ some r
      refused e p = unfold create_run in ground (arith, p)

-- What a call about one assignment does: nothing, a refresh of the run of its step, or a move of
-- its step, which is not settled.
abbrev pub Effect : String → StepStatus → ℤ → CoordinatorStore → CoordinatorStore → Type 0
Effect id target now s t =
    (t ≡ s)
    ⊎ (((row : StepRow) × (row_of id s ≡ some row) × (t ≡ refresh_run row.plan_id now s))
        ⊎ ((row : StepRow) × (row_of id s ≡ some row)
            × (is_settled row.status ≡ false)
            × (t ≡ move_step row target now s)))

pub Next-Effect :
    (k : String) (r : StepRow) (s : CoordinatorStore) (id : String) (target : StepStatus) (now : ℤ)
    (t : CoordinatorStore)
    → row_of k s ≡ some r
    → is_pending target ≡ false
    → Effect id target now s t
    → Next k r t
Next-Effect k r s id target now t at_k p (inl same) = rw same (r, at_k, Follows-refl r)
Next-Effect k r s id target now t at_k p (inr (inl (row, found, refreshed))) =
    rw refreshed (r, unfold refresh_run in at_k, Follows-refl r)
Next-Effect k r s id target now t at_k p (inr (inr (row, found, loose, moved))) =
    rw moved (Next-move_step k r s at_k id row target now found loose p)

module _ (id : String) (now : ℤ) (s : CoordinatorStore) where
  pub transition-Effect :
      (target : StepStatus) (from_ack : Bool)
      → Effect id target now s (transition id target now from_ack s).1
  transition-Effect target from_ack = elim (Option-cases (row_of id s)) [
    | inl p ↦ inl (missing p)
    | inr (row, p) ↦ elim (found row p) [
      | inl same ↦ inl same
      | inr (inl refreshed) ↦ inr (inl (row, p, refreshed))
      | inr (inr (loose, moved)) ↦ inr (inr (row, p, loose, moved))
    ]
  ]
    where
      missing : row_of id s ≡ none → (transition id target now from_ack s).1 ≡ s
      missing p = unfold transition in ground arith

      found :
          (row : StepRow)
          → row_of id s ≡ some row
          → ((transition id target now from_ack s).1 ≡ s)
            ⊎ (((transition id target now from_ack s).1 ≡ refresh_run row.plan_id now s)
                ⊎ ((is_settled row.status ≡ false)
                    × ((transition id target now from_ack s).1 ≡ move_step row target now s)))
      found row p = unfold transition in ground arith

  pub reconcile-Effect :
      (status : AssignmentStatus) (target : StepStatus)
      → known_outcome status ≡ some target
      → Effect id target now s (reconcile_outcome id status now s).1
  reconcile-Effect status target known = elim (Option-cases (row_of id s)) [
    | inl p ↦ inl (unfold reconcile_outcome in ground arith)
    | inr (row, p) ↦ elim (found row p) [
      | inl same ↦ inl same
      | inr (loose, moved) ↦ inr (inr (row, p, loose, moved))
    ]
  ]
    where
      found :
          (row : StepRow)
          → row_of id s ≡ some row
          → ((reconcile_outcome id status now s).1 ≡ s)
            ⊎ ((is_settled row.status ≡ false)
                × ((reconcile_outcome id status now s).1 ≡ move_step row target now s))
      found row p = unfold reconcile_outcome in ground arith

  pub cancellation-Effect :
      (agreed : Bool)
      → Effect id StepStatus.unknown now s (record_cancellation_acknowledgement id agreed now s).1
  cancellation-Effect agreed = elim (Option-cases (row_of id s)) [
    | inl p ↦ inl (missing p)
    | inr (row, p) ↦ elim (found row p) [
      | inl refreshed ↦ inr (inl (row, p, refreshed))
      | inr (loose, moved) ↦ inr (inr (row, p, loose, moved))
    ]
  ]
    where
      missing : row_of id s ≡ none → (record_cancellation_acknowledgement id agreed now s).1 ≡ s
      missing p = unfold record_cancellation_acknowledgement in ground arith

      found :
          (row : StepRow)
          → row_of id s ≡ some row
          → ((record_cancellation_acknowledgement id agreed now s).1
              ≡ refresh_run row.plan_id now s)
            ⊎ ((is_settled row.status ≡ false)
                × ((record_cancellation_acknowledgement id agreed now s).1
                    ≡ move_step row StepStatus.unknown now s))
      found row p = unfold record_cancellation_acknowledgement in ground arith
