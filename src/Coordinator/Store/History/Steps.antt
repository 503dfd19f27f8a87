-- ===== src/Coordinator/Store/History/Steps.antt =====
-- What holds of one step over every history of the store.
use ump.Prelude.{
  String, ◌≡◌, refl, ◌∙◌, ap, inl, inr, Bool, true, false, ◌&&◌, ◌||◌, none, some, List, [], ◌∷◌,
  ◌==◌, is_some, arith, Option-cases, Bool-cases,
}
use ump.Prelude.Int.{ℤ}
use ump.Prelude.Table.{find, find-update}
use ump.Models.Status.{AssignmentStatus}
use ump.Coordinator.Tables.{
  CoordinatorStore, StepRow, StepStatus, step_key, run_key, is_pending, is_sent, is_unknown, row_of,
  move_steps, refresh_run,
}
use ump.Coordinator.Store.{
  mark_dispatched, request_cancellation, record_acknowledgement, record_outcome, reconcile_outcome,
  recover_interrupted_runs, cancel_steps, record_cancellation_acknowledgement, interrupted,
  known_outcome,
}
use ump.Coordinator.Store.History.{
  Call, creating, dispatching, cancelling, answering_cancel, acknowledging, reporting, reconciling,
  recovering, perform, perform_all,
}
use ump.Coordinator.Store.History.Rows.{
  Follows-refl, Follows-trans, Next, Next-create_run, Next-move_steps, Next-Effect,
  transition-Effect, reconcile-Effect, cancellation-Effect,
}

abbrev waits_in : String → StepRow → Bool
waits_in plan_id x = x.plan_id == plan_id && is_pending x.status

abbrev runs_in : String → StepRow → Bool
runs_in plan_id x = x.plan_id == plan_id && (is_sent x.status || is_unknown x.status)

Next-then :
    (k : String) (r : StepRow) (s t u : CoordinatorStore)
    → Next k r t
    → ((m : StepRow) → row_of k t ≡ some m → Next k m u)
    → Next k r u
Next-then k r s t u (m, at_m, one) more =
    let (r', at_end, two) = more m at_m in
    (r', at_end, Follows-trans {a = r} {b = m} {c = r'} one two)

module _ (k : String) (r : StepRow) (s : CoordinatorStore) (at_k : row_of k s ≡ some r) where
  Next-acknowledgement :
      (id : String) (status : AssignmentStatus) (now : ℤ)
      → Next k r (record_acknowledgement id status now s).1
  unfolding record_acknowledgement
  Next-acknowledgement id AssignmentStatus.accepted t =
      Next-Effect k r s id StepStatus.accepted t _ at_k refl
        (transition-Effect id t s StepStatus.accepted true)
  Next-acknowledgement id AssignmentStatus.rejected t =
      Next-Effect k r s id StepStatus.rejected t _ at_k refl
        (transition-Effect id t s StepStatus.rejected true)
  Next-acknowledgement id AssignmentStatus.unknown t =
      Next-Effect k r s id StepStatus.unknown t _ at_k refl
        (transition-Effect id t s StepStatus.unknown true)
  Next-acknowledgement id AssignmentStatus.succeeded t = (r, at_k, Follows-refl r)
  Next-acknowledgement id AssignmentStatus.failed t = (r, at_k, Follows-refl r)
  Next-acknowledgement id AssignmentStatus.cancelled t = (r, at_k, Follows-refl r)

  Next-outcome :
      (id : String) (status : AssignmentStatus) (now : ℤ)
      → Next k r (record_outcome id status now s).1
  unfolding record_outcome
  Next-outcome id AssignmentStatus.accepted t = (r, at_k, Follows-refl r)
  Next-outcome id AssignmentStatus.rejected t =
      Next-Effect k r s id StepStatus.rejected t _ at_k refl
        (transition-Effect id t s StepStatus.rejected false)
  Next-outcome id AssignmentStatus.unknown t =
      Next-Effect k r s id StepStatus.unknown t _ at_k refl
        (transition-Effect id t s StepStatus.unknown false)
  Next-outcome id AssignmentStatus.succeeded t =
      Next-Effect k r s id StepStatus.succeeded t _ at_k refl
        (transition-Effect id t s StepStatus.succeeded false)
  Next-outcome id AssignmentStatus.failed t =
      Next-Effect k r s id StepStatus.failed t _ at_k refl
        (transition-Effect id t s StepStatus.failed false)
  Next-outcome id AssignmentStatus.cancelled t =
      Next-Effect k r s id StepStatus.cancelled t _ at_k refl
        (transition-Effect id t s StepStatus.cancelled false)

  Next-reconcile :
      (id : String) (status : AssignmentStatus) (now : ℤ)
      → Next k r (reconcile_outcome id status now s).1
  Next-reconcile id status t = elim (Option-cases (known_outcome status)) [
    | inl p ↦ (r, ap (row_of k) (refused p) ∙ at_k, Follows-refl r)
    | inr (target, p) ↦
        Next-Effect k r s id target t _ at_k (ground arith)
          (reconcile-Effect id t s status target p)
  ]
    where
      refused : known_outcome status ≡ none → (reconcile_outcome id status t s).1 ≡ s
      refused p = unfold reconcile_outcome in ground arith

  Next-dispatched : (id : String) (now : ℤ) → Next k r (mark_dispatched id now s).1
  unfolding mark_dispatched
  Next-dispatched id t =
      Next-move_steps k r s at_k (λ x. step_key x == id && is_pending x.status)
        StepStatus.dispatched t (λ e. ground arith) refl

  Next-cancelled : (plan_id : String) (now : ℤ) → Next k r (cancel_steps plan_id now s)
  unfolding cancel_steps
  Next-cancelled plan_id t =
      Next-then k r s (move_steps (waits_in plan_id) StepStatus.cancelled t s)
        (move_steps (runs_in plan_id) StepStatus.cancellation_requested t
          (move_steps (waits_in plan_id) StepStatus.cancelled t s))
        (Next-move_steps k r s at_k (waits_in plan_id) StepStatus.cancelled t (λ e. ground arith)
          refl)
        (λ m at_m.
          Next-move_steps k m (move_steps (waits_in plan_id) StepStatus.cancelled t s) at_m
            (runs_in plan_id) StepStatus.cancellation_requested t (λ e. ground arith) refl)

  Next-recovered : Next k r (recover_interrupted_runs s)
  unfolding recover_interrupted_runs
  Next-recovered =
      let moved =
        find-update step_key k interrupted (λ x. record x { status = StepStatus.unknown }) s.steps
          (λ x. refl) in
      elim (Bool-cases (interrupted r)) [
        | inl e ↦ (
          record r { status = StepStatus.unknown },
          moved ∙ rw at_k (rw e),
          record {
            plan = refl;
            step = refl;
            document = refl;
            settled = λ h. ground arith;
            pending = λ h. ground arith;
          },
        )
        | inr e ↦ (r, moved ∙ rw at_k (rw e), Follows-refl r)
      ]

  Next-cancelling : (plan_id : String) (now : ℤ) → Next k r (request_cancellation plan_id now s).1
  Next-cancelling plan_id t = elim (Bool-cases (is_some (find run_key plan_id s.runs))) [
    | inl known ↦
        let (r', at_end, follows) = Next-cancelled plan_id t in
        (r', cancelled known ∙ at_end, follows)
    | inr unknown ↦ (r, refused unknown ∙ at_k, Follows-refl r)
  ]
    where
      cancelled :
          is_some (find run_key plan_id s.runs) ≡ true
          → row_of k (request_cancellation plan_id t s).1 ≡ row_of k (cancel_steps plan_id t s)
      cancelled known = unfold request_cancellation refresh_run in rw known refl

      refused :
          is_some (find run_key plan_id s.runs) ≡ false
          → row_of k (request_cancellation plan_id t s).1 ≡ row_of k s
      refused unknown = unfold request_cancellation in rw unknown refl

  pub perform-Next : (c : Call) → Next k r (perform c s)
  unfolding perform
  perform-Next (creating goal plan assignments t) =
      Next-create_run k r s at_k goal plan assignments t
  perform-Next (dispatching id t) = Next-dispatched id t
  perform-Next (cancelling plan_id t) = Next-cancelling plan_id t
  perform-Next (answering_cancel id agreed t) =
      Next-Effect k r s id StepStatus.unknown t
        (record_cancellation_acknowledgement id agreed t s).1 at_k refl
        (cancellation-Effect id t s agreed)
  perform-Next (acknowledging id status t) = Next-acknowledgement id status t
  perform-Next (reporting id status t) = Next-outcome id status t
  perform-Next (reconciling id status t) = Next-reconcile id status t
  perform-Next recovering = Next-recovered

pub perform_all-Next :
    (k : String) (calls : List Call) (r : StepRow) (s : CoordinatorStore)
    → row_of k s ≡ some r
    → Next k r (perform_all calls s)
unfolding perform_all
perform_all-Next k [] r s at_k = (r, at_k, Follows-refl r)
perform_all-Next k (c ∷ calls) r s at_k =
    Next-then k r s (perform c s) (perform_all calls (perform c s)) (perform-Next k r s at_k c)
      (λ m at_m. perform_all-Next k calls m (perform c s) at_m)
