-- ===== src/Runtime/Participant/History/Admission.antt =====
-- When `Participant._assignment` of runtime.py submits work.
use ump.Prelude.{
  String, ◌≡◌, refl, ◌⊎◌, inl, inr, true, false, Option, none, some, [], ◌∷◌, ◌++◌, Result, Done,
  ok, err, arith, Option-cases, >>=-eq-ok, refuse-eq-ok, guard-eq-ok, ok-injective, ap, ◌∙◌, refuse,
  guard,
}
use ump.Prelude.Int.{ℤ}
use ump.Models.Text.{ModelError}
use ump.Models.Json.{Json}
use ump.Models.Status.{AssignmentStatus}
use ump.Models.Step.{Assignment}
use ump.Models.Lease.{AuthorityLease}
use ump.Models.Outcome.{Outcome}
use ump.Authority.Store.{AuthorityError, authorize}
use ump.Transport.Envelope.{Envelope}
use ump.Journal.Claim.{ClaimKind, ClaimResult, JournalError}
use ump.Journal.Durable.{Journal, claim, claimed, accepted_row}
use ump.Journal.Durable.History.{perform, claiming}
use ump.Journal.Durable.History.Rows.{row_of}
use ump.Journal.Durable.History.Once.{claim-not_new, claim-inserts}
use ump.Runtime.Participant.{
  Participant, Job, Reason, window_not_open, deadline_passed, unadvertised, Conditions, Problem,
  crashed, refused, lift_authority, before, after, send, operational, answer_refused, respond,
  respond_to, check_assignment, decide_checked, decide, read_assignment, receive_read,
  receive_assignment, receive_with, submit, acknowledgement, accepted_for_execution, Ended,
}
use ump.Runtime.Participant.History.Quiet.{
  Quiet, Quiet-refl, Quiet-trans, Quiet-perform, Quiet-send,
}

-- an answer of kind NEW has nothing else
claim-kind_new :
    (digest : Json → String) (a : Assignment) (issuer_id : String) (now : ℤ) (j : Journal)
    (r : ClaimResult)
    → (claim digest a issuer_id now j).0 ≡ ok r
    → r.kind ≡ ClaimKind.new
    → (claim digest a issuer_id now j).0 ≡ ok (claimed ClaimKind.new)
unfolding claim
claim-kind_new digest a i t j r h e = ground arith

-- a claim that is answered NEW found no row
pub claim-new-none :
    (digest : Json → String) (a : Assignment) (issuer_id : String) (now : ℤ) (j : Journal)
    → (claim digest a issuer_id now j).0 ≡ ok (claimed ClaimKind.new)
    → row_of a.assignment_id j ≡ none
claim-new-none digest a i t j h = elim (Option-cases (row_of a.assignment_id j)) [
  | inl e ↦ e
  | inr (r, e) ↦ absurd (claim-not_new digest a i t j r e h)
]

-- the participant that hands a job over: it has sent messages since `p`, and claimed nothing
record Sent (p middle : Participant) : Type 0 where
  queued : middle.queued ≡ p.queued
  accept_calls : middle.accept_calls ≡ p.accept_calls
  journal : middle.journal ≡ p.journal

module _ (a : Assignment) (now : ℤ) (correlation_id : Option String) where
  Quiet-answer_refused :
      (status : AssignmentStatus) (why : Reason) (p : Participant)
      → Quiet p (answer_refused a status why now correlation_id p)
  unfolding answer_refused
  Quiet-answer_refused status why p =
      Quiet-trans (Quiet-send operational _ now correlation_id p)
        (Quiet-send operational _ now correlation_id _)

  respond_cases :
      (work : Job → Participant → Participant × Ended) (kind : ClaimKind) (o : Option Outcome)
      (p : Participant)
      → Quiet p (respond work kind o a now correlation_id p).0
        ⊎ ((kind ≡ ClaimKind.new)
            × (middle : Participant) × Sent p middle
            × (respond work kind o a now correlation_id p
                ≡ work (record { assignment = a; correlation_id = correlation_id }) middle))
  unfolding respond
  respond_cases work ClaimKind.replay (some o) p = inl (
      Quiet-trans (Quiet-send operational _ now correlation_id p)
        (Quiet-send operational _ now correlation_id _))
  respond_cases work ClaimKind.replay none p = inl (Quiet-refl p)
  respond_cases work ClaimKind.conflict o p = inl (Quiet-answer_refused _ _ p)
  respond_cases work ClaimKind.resource_conflict o p = inl (Quiet-answer_refused _ _ p)
  respond_cases work ClaimKind.uncertain o p = inl (Quiet-answer_refused _ _ p)
  respond_cases work ClaimKind.new o p = inr (
    refl,
    send operational
        (acknowledgement a.assignment_id AssignmentStatus.accepted accepted_for_execution) now
        correlation_id p,
    unfold send in (record { queued = refl; accept_calls = refl; journal = refl }),
    refl,
  )

module _ (digest : Json → String) (c : Conditions) (envelope : Envelope) (p : Participant) where
  -- what holds where an envelope makes a job
  pub record Admitted (p' : Participant) : Type 0 where
    pub assignment : Assignment
    pub addressed : read_assignment p.robot_id envelope.payload ≡ ok (some assignment)
    pub checked : check_assignment c envelope.source_id assignment p ≡ ok tt
    pub fresh :
        (claim digest assignment envelope.source_id c.now_ms p.journal).0
        ≡ ok (claimed ClaimKind.new)
    pub queued :
        p'.queued
        ≡ p.queued
          ++ record { assignment = assignment; correlation_id = envelope.correlation_id } ∷ []
    pub accept_calls : p'.accept_calls ≡ p.accept_calls
    pub journal : p'.journal ≡ (claim digest assignment envelope.source_id c.now_ms p.journal).1

  -- the same where the job is handed to `work`, by the participant `middle`
  pub record Handed (work : Job → Participant → Participant × Ended) (end : Participant × Ended)
      : Type 0 where
    pub assignment : Assignment
    pub addressed : read_assignment p.robot_id envelope.payload ≡ ok (some assignment)
    pub checked : check_assignment c envelope.source_id assignment p ≡ ok tt
    pub fresh :
        (claim digest assignment envelope.source_id c.now_ms p.journal).0
        ≡ ok (claimed ClaimKind.new)
    pub middle : Participant
    pub queued : middle.queued ≡ p.queued
    pub accept_calls : middle.accept_calls ≡ p.accept_calls
    pub journal : middle.journal ≡ (claim digest assignment envelope.source_id c.now_ms p.journal).1
    pub works :
        end
        ≡ work (record { assignment = assignment; correlation_id = envelope.correlation_id }) middle

  module _ (work : Job → Participant → Participant × Ended) where
    module _ (a : Assignment) where
      abbrev after_claim : Participant
      after_claim = record p { journal = (claim digest a envelope.source_id c.now_ms p.journal).1 }

      after_claim-Quiet : Quiet p after_claim
      unfolding perform
      after_claim-Quiet = Quiet-perform digest (claiming a envelope.source_id c.now_ms) p

      claimed_cases :
          (answer : Result JournalError ClaimResult)
          → read_assignment p.robot_id envelope.payload ≡ ok (some a)
          → check_assignment c envelope.source_id a p ≡ ok tt
          → (claim digest a envelope.source_id c.now_ms p.journal).0 ≡ answer
          → Quiet p (respond_to work answer a c.now_ms envelope.correlation_id after_claim).0
            ⊎ Handed work (respond_to work answer a c.now_ms envelope.correlation_id after_claim)
      claimed_cases (err e) read checked h = inl after_claim-Quiet
      claimed_cases (ok r) read checked h =
          elim (respond_cases a c.now_ms envelope.correlation_id work r.kind r.outcome
            after_claim) [
              | inl q ↦ inl (Quiet-trans after_claim-Quiet q)
              | inr (e, middle, sent, works) ↦ inr (record {
                assignment = a;
                addressed = read;
                checked = checked;
                fresh = claim-kind_new digest a envelope.source_id c.now_ms p.journal r h e;
                middle = middle;
                queued = sent.queued;
                accept_calls = sent.accept_calls;
                journal = sent.journal;
                works = works;
              })
            ]

      checked_cases :
          (check : Result Problem Done)
          → read_assignment p.robot_id envelope.payload ≡ ok (some a)
          → check_assignment c envelope.source_id a p ≡ check
          → Quiet p
              (decide_checked work check digest c.now_ms envelope.source_id envelope.correlation_id
                a p).0
            ⊎ Handed work (
                decide_checked work check digest c.now_ms envelope.source_id envelope.correlation_id
                  a p)
      checked_cases (err crashed) read h = inl (Quiet-refl p)
      checked_cases (err (refused why)) read h =
          inl (
            Quiet-answer_refused a c.now_ms envelope.correlation_id AssignmentStatus.rejected why p)
      checked_cases (ok _) read h =
          claimed_cases (claim digest a envelope.source_id c.now_ms p.journal).0 read h refl

    read_cases :
        (found : Result ModelError (Option Assignment))
        → read_assignment p.robot_id envelope.payload ≡ found
        → Quiet p (receive_read work found digest c envelope p).0
          ⊎ Handed work (receive_read work found digest c envelope p)
    unfolding decide
    read_cases (err e) read = inl (Quiet-refl p)
    read_cases (ok none) read = inl (Quiet-refl p)
    read_cases (ok (some a)) read =
        checked_cases a (check_assignment c envelope.source_id a p) read refl

    -- An assignment message makes no job, or all that the code requires of one holds.
    pub receive_with_cases :
        Quiet p (receive_with work digest c envelope p).0
        ⊎ Handed work (receive_with work digest c envelope p)
    unfolding receive_with
    receive_with_cases = read_cases (read_assignment p.robot_id envelope.payload) refl

  pub receive_assignment_cases :
      Quiet p (receive_assignment digest c envelope p).0
      ⊎ Admitted (receive_assignment digest c envelope p).0
  unfolding receive_assignment submit
  receive_assignment_cases = elim (receive_with_cases submit) [
    | inl q ↦ inl q
    | inr m ↦ inr (record {
      assignment = m.assignment;
      addressed = m.addressed;
      checked = m.checked;
      fresh = m.fresh;
      queued =
          ap (λ (e : Participant × Ended). e.0.queued) m.works
          ∙ ap
              (λ l.
                l
                ++ record { assignment = m.assignment; correlation_id = envelope.correlation_id }
                  ∷ [])
              m.queued;
      accept_calls = ap (λ (e : Participant × Ended). e.0.accept_calls) m.works ∙ m.accept_calls;
      journal = ap (λ (e : Participant × Ended). e.0.journal) m.works ∙ m.journal;
    })
  ]

lift_authority-eq-ok :
    (m : Result AuthorityError AuthorityLease) {l : AuthorityLease}
    → lift_authority m ≡ ok l
    → m ≡ ok l
lift_authority-eq-ok (ok l) h = ap ok (ok-injective h)
lift_authority-eq-ok (err e) h = cc

-- what the checks ask
check_assignment-eq-ok :
    (c : Conditions) (source_id : String) (a : Assignment) (p : Participant)
    → check_assignment c source_id a p ≡ ok tt
    → ((l : AuthorityLease) × (authorize source_id p.robot_id a c.now_ms p.leases ≡ ok l))
      × (before c.now_ms a.step.not_before_ms ≡ false)
      × (after c.now_ms a.step.deadline_ms ≡ false)
      × (c.advertised ≡ true)
      × (c.inputs_conform ≡ true)
unfolding check_assignment
check_assignment-eq-ok c source_id a p h =
    let (_, open_now, h₁) =
      >>=-eq-ok (refuse (before c.now_ms a.step.not_before_ms) (refused window_not_open)) _ h in
    let (_, in_time, h₂) =
      >>=-eq-ok (refuse (after c.now_ms a.step.deadline_ms) (refused deadline_passed)) _ h₁ in
    let (l, lease, h₃) =
      >>=-eq-ok (lift_authority (authorize source_id p.robot_id a c.now_ms p.leases)) _ h₂ in
    let (_, advertised, h₄) = >>=-eq-ok (guard c.advertised (refused unadvertised)) _ h₃ in
    (
      (l, lift_authority-eq-ok (authorize source_id p.robot_id a c.now_ms p.leases) lease),
      refuse-eq-ok _ _ open_now,
      refuse-eq-ok _ _ in_time,
      guard-eq-ok _ _ advertised,
      guard-eq-ok _ _ h₄,
    )

-- What an assignment message does to the participant's work: nothing, or one job is submitted at the
-- end of the queue. Then its assignment is the one of the message, the stored leases authorize the
-- sender for it at that time, its window is open, its capability is advertised and its inputs
-- conform, and its identifier, which had no row in the journal, has one now.
pub receive_assignment-authorized :
    (digest : Json → String) (c : Conditions) (envelope : Envelope) (p : Participant)
    → ((receive_assignment digest c envelope p).0.queued ≡ p.queued)
      ⊎ ((a : Assignment) × (l : AuthorityLease) × ((receive_assignment digest c envelope
              p).0.queued
            ≡ p.queued ++ record { assignment = a; correlation_id = envelope.correlation_id } ∷ [])
          × (read_assignment p.robot_id envelope.payload ≡ ok (some a))
          × (authorize envelope.source_id p.robot_id a c.now_ms p.leases ≡ ok l)
          × (before c.now_ms a.step.not_before_ms ≡ false)
          × (after c.now_ms a.step.deadline_ms ≡ false)
          × (c.advertised ≡ true)
          × (c.inputs_conform ≡ true)
          × (row_of a.assignment_id p.journal ≡ none)
          × (row_of a.assignment_id (receive_assignment digest c envelope p).0.journal
              ≡ some (accepted_row digest a envelope.source_id c.now_ms)))
receive_assignment-authorized digest c envelope p =
    elim (receive_assignment_cases digest c envelope p) [
      | inl q ↦ inl q.queued
      | inr m ↦
          let ((l, lease), open_now, in_time, advertised, conform) =
            check_assignment-eq-ok c envelope.source_id m.assignment p m.checked in
          inr (
            m.assignment,
            l,
            m.queued,
            m.addressed,
            lease,
            open_now,
            in_time,
            advertised,
            conform,
            claim-new-none digest m.assignment envelope.source_id c.now_ms p.journal m.fresh,
            ap (row_of m.assignment.assignment_id) m.journal
                ∙ claim-inserts digest m.assignment envelope.source_id c.now_ms p.journal m.fresh,
          )
    ]
