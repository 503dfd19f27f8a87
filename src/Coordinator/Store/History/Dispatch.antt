-- ===== src/Coordinator/Store/History/Dispatch.antt =====
-- `mark_dispatched` over histories of the store of coordinator_store.py.
use ump.Prelude.{
  String, ◌≡◌, refl, sym, ◌∙◌, ap, inl, inr, Bool, true, false, ◌&&◌, ◌||◌, none, List, [], ◌∷◌,
  ◌++◌, ok, err, ◌==◌, is_some, any, arith, eq_iff, if◌then◌else◌, Option-cases, Bool-cases,
  Result-cases,
}
use ump.Prelude.Int.{ℤ}
use ump.Prelude.Table.{find, update, find-append}
use ump.Models.Status.{AssignmentStatus}
use ump.Models.Step.{Assignment}
use ump.Models.Plan.{SharedGoal, Plan}
use ump.Coordinator.Tables.{
  CoordinatorStore, StoreError, StepRow, StepStatus, step_key, run_key, is_pending, is_sent,
  is_unknown, row_of, move_steps, refresh_run, set_step_status,
}
use ump.Coordinator.Store.{
  create_run, mark_dispatched, request_cancellation, record_cancellation_acknowledgement,
  record_acknowledgement, record_outcome, reconcile_outcome, recover_interrupted_runs, insert_steps,
  known_outcome, move_step, cancel_steps, interrupted, pending_row,
}
use ump.Coordinator.Store.History.{
  Call, creating, dispatching, cancelling, answering_cancel, acknowledging, reporting, reconciling,
  recovering, perform, perform_all,
}
use ump.Coordinator.Store.History.Rows.{
  Effect, transition-Effect, reconcile-Effect, cancellation-Effect,
}
use ump.Coordinator.Store.History.Steps.{perform-Next}

-- the rows that `mark_dispatched` would write
abbrev pub waits : String → StepRow → Bool
waits k x = step_key x == k && is_pending x.status

any-append :
    (p : StepRow → Bool) (rows : List StepRow) (x : StepRow)
    → any p (rows ++ x ∷ []) ≡ (any p rows || p x)
any-append p [] x = ground arith
any-append p (r ∷ rows) x = ground (arith, any-append p rows x)

waits-find :
    (k : String) (rows : List StepRow)
    → any (waits k) rows ≡ true
    → is_some (find step_key k rows) ≡ true
unfolding find
waits-find k [] h = ground arith
waits-find k (r ∷ rows) h = ground (arith, waits-find k rows)

-- a write of a status that is not pending makes no row wait
quiet-row :
    (k : String) (p : Bool) (new old : StepRow)
    → is_pending new.status ≡ false
    → waits k old ≡ false
    → waits k (if p then new else old) ≡ false
quiet-row k true new old n h = elim (Bool-cases (step_key new == k)) [
  | inl e ↦ rw e n
  | inr e ↦ rw e refl
]
quiet-row k false new old n h = h

or-false : (a b : Bool) → (a || b) ≡ false → (a ≡ false) × (b ≡ false)
or-false a b h = ground arith

quiet-update :
    (k : String) (p : StepRow → Bool) (f : StepRow → StepRow) (rows : List StepRow)
    → ((r : StepRow) → is_pending (f r).status ≡ false)
    → any (waits k) rows ≡ false
    → any (waits k) (update p f rows) ≡ false
unfolding update
quiet-update k p f [] n h = refl
quiet-update k p f (r ∷ rows) n h =
    let (here, later) = or-false (waits k r) (any (waits k) rows) h in
    rw (quiet-row k (p r) (f r) r (n r) here) (quiet-update k p f rows n later)

quiet-dispatched :
    (k : String) (now : ℤ) (rows : List StepRow)
    → any (waits k) (update (waits k) (set_step_status StepStatus.dispatched now) rows) ≡ false
unfolding update
quiet-dispatched k t [] = refl
quiet-dispatched k t (r ∷ rows) = ground (arith, quiet-dispatched k t rows)

known-append :
    (k : String) (rows : List StepRow) (x : StepRow)
    → is_some (find step_key k rows) ≡ true
    → is_some (find step_key k (rows ++ x ∷ [])) ≡ true
known-append k rows x h = elim (Option-cases (find step_key k rows)) [
  | inl p ↦ let impossible = rw p at h in cc
  | inr (r, p) ↦ rw find-append (rw p refl)
]

quiet-append :
    (k : String) (rows : List StepRow) (x : StepRow)
    → is_some (find step_key k rows) ≡ true
    → any (waits k) rows ≡ false
    → is_some (find step_key (step_key x) rows) ≡ false
    → any (waits k) (rows ++ x ∷ []) ≡ false
quiet-append k rows x known h free = elim (Bool-cases (step_key x == k)) [
  | inl e ↦ let impossible = free-known (ground (arith, eq_iff (step_key x) k)) in cc
  | inr e ↦ rw (any-append (waits k) rows x) (rw h (rw e refl))
]
  where
    free-known : step_key x ≡ k → false ≡ true
    free-known same = sym free ∙ (ap (λ n. is_some (find step_key n rows)) same ∙ known)

quiet-insert :
    (k : String) (plan : Plan) (assignments : List Assignment) (now : ℤ) (rows : List StepRow)
    {out : List StepRow}
    → is_some (find step_key k rows) ≡ true
    → any (waits k) rows ≡ false
    → insert_steps plan assignments now rows ≡ ok out
    → any (waits k) out ≡ false
unfolding insert_steps
quiet-insert k plan [] t rows known h e = ground arith
quiet-insert k plan (a ∷ rest) t rows {out} known h e =
    elim (Bool-cases (
      is_some (find step_key a.assignment_id rows)
      || any (λ x. x.plan_id == plan.plan_id && x.step_id == a.step.step_id) rows)) [
        | inl taken ↦ let impossible = rw taken at e in cc
        | inr free ↦
            quiet-insert k plan rest t (rows ++ pending_row plan a t ∷ [])
              (known-append k rows (pending_row plan a t) known)
              (quiet-append k rows (pending_row plan a t) known h
                (or-false (is_some (find step_key a.assignment_id rows)) _ free).0)
              (rw free at e)
      ]

-- no row of an assignment waits, and there is one
abbrev pub Quiet : String → CoordinatorStore → Type 0
Quiet k s = (is_some (row_of k s) ≡ true) × (any (waits k) s.steps ≡ false)

module _ (k : String) (s : CoordinatorStore) (quiet : any (waits k) s.steps ≡ false) where
  quiet-move :
      (p : StepRow → Bool) (status : StepStatus) (now : ℤ)
      → is_pending status ≡ false
      → any (waits k) (move_steps p status now s).steps ≡ false
  unfolding move_steps
  quiet-move p status t n = quiet-update k p (set_step_status status t) s.steps (λ r. n) quiet

  quiet-Effect :
      (id : String) (target : StepStatus) (now : ℤ) (t : CoordinatorStore)
      → is_pending target ≡ false
      → Effect id target now s t
      → any (waits k) t.steps ≡ false
  unfolding move_step refresh_run
  quiet-Effect id target now t n (inl same) = rw same quiet
  quiet-Effect id target now t n (inr (inl (row, found, refreshed))) = rw refreshed quiet
  quiet-Effect id target now t n (inr (inr (row, found, loose, moved))) =
      rw moved (quiet-move (λ r. step_key r == row.assignment_id) target now n)

  quiet-acknowledged :
      (id : String) (status : AssignmentStatus) (now : ℤ)
      → any (waits k) (record_acknowledgement id status now s).1.steps ≡ false
  unfolding record_acknowledgement
  quiet-acknowledged id AssignmentStatus.accepted t =
      quiet-Effect id StepStatus.accepted t _ refl
        (transition-Effect id t s StepStatus.accepted true)
  quiet-acknowledged id AssignmentStatus.rejected t =
      quiet-Effect id StepStatus.rejected t _ refl
        (transition-Effect id t s StepStatus.rejected true)
  quiet-acknowledged id AssignmentStatus.unknown t =
      quiet-Effect id StepStatus.unknown t _ refl (transition-Effect id t s StepStatus.unknown true)
  quiet-acknowledged id AssignmentStatus.succeeded t = quiet
  quiet-acknowledged id AssignmentStatus.failed t = quiet
  quiet-acknowledged id AssignmentStatus.cancelled t = quiet

  quiet-reported :
      (id : String) (status : AssignmentStatus) (now : ℤ)
      → any (waits k) (record_outcome id status now s).1.steps ≡ false
  unfolding record_outcome
  quiet-reported id AssignmentStatus.accepted t = quiet
  quiet-reported id AssignmentStatus.rejected t =
      quiet-Effect id StepStatus.rejected t _ refl
        (transition-Effect id t s StepStatus.rejected false)
  quiet-reported id AssignmentStatus.unknown t =
      quiet-Effect id StepStatus.unknown t _ refl
        (transition-Effect id t s StepStatus.unknown false)
  quiet-reported id AssignmentStatus.succeeded t =
      quiet-Effect id StepStatus.succeeded t _ refl
        (transition-Effect id t s StepStatus.succeeded false)
  quiet-reported id AssignmentStatus.failed t =
      quiet-Effect id StepStatus.failed t _ refl (transition-Effect id t s StepStatus.failed false)
  quiet-reported id AssignmentStatus.cancelled t =
      quiet-Effect id StepStatus.cancelled t _ refl
        (transition-Effect id t s StepStatus.cancelled false)

  quiet-reconciled :
      (id : String) (status : AssignmentStatus) (now : ℤ)
      → any (waits k) (reconcile_outcome id status now s).1.steps ≡ false
  quiet-reconciled id status t = elim (Option-cases (known_outcome status)) [
    | inl p ↦ ap (λ u. any (waits k) u.steps) (refused p) ∙ quiet
    | inr (target, p) ↦
        quiet-Effect id target t _ (ground arith) (reconcile-Effect id t s status target p)
  ]
    where
      refused : known_outcome status ≡ none → (reconcile_outcome id status t s).1 ≡ s
      refused p = unfold reconcile_outcome in ground arith

  quiet-recovered : any (waits k) (recover_interrupted_runs s).steps ≡ false
  unfolding recover_interrupted_runs
  quiet-recovered =
      quiet-update k interrupted (λ r. record r { status = StepStatus.unknown }) s.steps (λ r. refl)
        quiet

quiet-cancelling :
    (k : String) (s : CoordinatorStore) (plan_id : String) (now : ℤ)
    → any (waits k) s.steps ≡ false
    → any (waits k) (request_cancellation plan_id now s).1.steps ≡ false
quiet-cancelling k s plan_id t quiet = elim (Bool-cases (is_some (find run_key plan_id s.runs))) [
  | inl known ↦ cancelled known
  | inr unknown ↦ refused unknown
]
  where
    first : StepRow → Bool
    first x = x.plan_id == plan_id && is_pending x.status

    cancelled :
        is_some (find run_key plan_id s.runs) ≡ true
        → any (waits k) (request_cancellation plan_id t s).1.steps ≡ false
    cancelled known =
        unfold request_cancellation refresh_run cancel_steps in
        rw known (
          quiet-move k (move_steps first StepStatus.cancelled t s)
            (quiet-move k s quiet first StepStatus.cancelled t refl)
            (λ x. x.plan_id == plan_id && (is_sent x.status || is_unknown x.status))
            StepStatus.cancellation_requested t refl)

    refused :
        is_some (find run_key plan_id s.runs) ≡ false
        → any (waits k) (request_cancellation plan_id t s).1.steps ≡ false
    refused unknown = unfold request_cancellation in rw unknown quiet

Quiet-created :
    (k : String) (s : CoordinatorStore) (goal : SharedGoal) (plan : Plan)
    (assignments : List Assignment) (now : ℤ)
    → Quiet k s
    → any (waits k) (create_run goal plan assignments now s).1.steps ≡ false
Quiet-created k s goal plan assignments t (known, quiet) =
    elim (Result-cases (insert_steps plan assignments t s.steps)) [
      | inl (rows, p) ↦ inserted rows p
      | inr (e, p) ↦ refused e p
    ]
  where
    inserted :
        (rows : List StepRow)
        → insert_steps plan assignments t s.steps ≡ ok rows
        → any (waits k) (create_run goal plan assignments t s).1.steps ≡ false
    inserted rows p =
        unfold create_run in
        ground (arith, p, quiet-insert k plan assignments t s.steps {out = rows} known quiet p)

    refused :
        (e : StoreError)
        → insert_steps plan assignments t s.steps ≡ err e
        → any (waits k) (create_run goal plan assignments t s).1.steps ≡ false
    refused e p = unfold create_run in ground (arith, p)

perform-Quiet :
    (k : String) (c : Call) (s : CoordinatorStore)
    → Quiet k s
    → any (waits k) (perform c s).steps ≡ false
unfolding perform mark_dispatched
perform-Quiet k (creating goal plan assignments t) s q = Quiet-created k s goal plan assignments t q
perform-Quiet k (dispatching id t) s (_, q) =
    quiet-move k s q (waits id) StepStatus.dispatched t refl
perform-Quiet k (cancelling plan_id t) s (_, q) = quiet-cancelling k s plan_id t q
perform-Quiet k (answering_cancel id agreed t) s (_, q) =
    quiet-Effect k s q id StepStatus.unknown t (record_cancellation_acknowledgement id agreed t s).1
      refl (cancellation-Effect id t s agreed)
perform-Quiet k (acknowledging id status t) s (_, q) = quiet-acknowledged k s q id status t
perform-Quiet k (reporting id status t) s (_, q) = quiet-reported k s q id status t
perform-Quiet k (reconciling id status t) s (_, q) = quiet-reconciled k s q id status t
perform-Quiet k recovering s (_, q) = quiet-recovered k s q

perform_all-Quiet :
    (k : String) (calls : List Call) (s : CoordinatorStore)
    → Quiet k s
    → any (waits k) (perform_all calls s).steps ≡ false
unfolding perform_all
perform_all-Quiet k [] s (_, q) = q
perform_all-Quiet k (c ∷ calls) s (known, q) = elim (Option-cases (row_of k s)) [
  | inl p ↦ let impossible = rw p at known in cc
  | inr (r, p) ↦
      let (r', at_next, _) = perform-Next k r s p c in
      perform_all-Quiet k calls (perform c s) (rw at_next refl, perform-Quiet k c s (known, q))
]

dispatched-Quiet :
    (k : String) (now : ℤ) (s : CoordinatorStore)
    → (mark_dispatched k now s).0 ≡ true
    → Quiet k (mark_dispatched k now s).1
unfolding mark_dispatched perform
dispatched-Quiet k t s sent = elim (Option-cases (row_of k s)) [
  | inl p ↦ let impossible = rw p at (waits-find k s.steps sent) in cc
  | inr (r, p) ↦
      let (r', at_next, _) = perform-Next k r s p (dispatching k t) in
      (ap is_some at_next, quiet-dispatched k t s.steps)
]

-- Where `mark_dispatched` returned True for an assignment, it returns False for that assignment
-- after any further calls, recoveries and repeated runs among them.
pub mark_dispatched-once :
    (k : String) (first : ℤ) (calls : List Call) (again : ℤ) (s : CoordinatorStore)
    → (mark_dispatched k first s).0 ≡ true
    → (mark_dispatched k again (perform_all calls (mark_dispatched k first s).1)).0 ≡ false
mark_dispatched-once k t calls u s sent =
    unfold mark_dispatched in
    perform_all-Quiet k calls (mark_dispatched k t s).1 (dispatched-Quiet k t s sent)
