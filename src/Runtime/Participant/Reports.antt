-- ===== src/Runtime/Participant/Reports.antt =====
-- What `_execute_assignment` of runtime.py reports at the end of a job, against the journal.
use ump.Prelude.{
  ◌+◌, String, ◌≡◌, refl, sym, ◌∙◌, ap, ◌⊎◌, inl, inr, Option, none, some, List, [], ◌∷◌, ◌++◌,
  Result, Done, ok, err, arith, Bool-cases, >>=-eq-ok, ◌>>=◌,
}
use mathlib.Core.List.{append_assoc, append-nil}
use ump.Prelude.Int.{ℤ}
use ump.Models.Text.{ModelError}
use ump.Models.Json.{Json}
use ump.Models.Outcome.{Outcome}
use ump.Models.Codec.{outcome_payload, decode_outcome, decode_assignment}
use ump.Journal.Claim.{JournalError}
use ump.Journal.Durable.{
  Journal, AssignmentRow, JournalRecord, complete, lookup, set_outcome, decode_optional,
  read_record, read_row, lift_model,
}
use ump.Journal.Durable.History.Rows.{row_of}
use ump.Journal.Durable.History.Once.{complete-stores}
use ump.Runtime.Participant.{
  Participant, Publication, Message, outcome, state, Safety, Job, Stream, send, operational,
  safety_stream,
}
use ump.Runtime.Participant.Execution.{
  Reply, publish_state, safety_changed, adapter_outcome, outcome_or_unknown, stored_outcome, report,
  reported_after, settle_with, settle, finish,
}

-- `p'` has sent `rest` after what `p` sent, on the same journal
record Sends (rest : List Publication) (p p' : Participant) : Type 0 where
  sent : p'.sent ≡ p.sent ++ rest
  journal : p'.journal ≡ p.journal

Sends-send :
    (s : Stream) (m : Message) (now : ℤ) (correlation_id : Option String) (p : Participant)
    → (x : Publication) × (x.message ≡ m) × Sends (x ∷ []) p (send s m now correlation_id p)
unfolding send
Sends-send operational m now correlation_id p = (
  record {
    message = m;
    stream = operational;
    sequence = p.operational_sequence + 1;
    timestamp_ms = now;
    correlation_id = correlation_id;
  },
  refl,
  record { sent = refl; journal = refl },
)
Sends-send safety_stream m now correlation_id p = (
  record {
    message = m;
    stream = safety_stream;
    sequence = p.safety_sequence + 1;
    timestamp_ms = now;
    correlation_id = correlation_id;
  },
  refl,
  record { sent = refl; journal = refl },
)

Sends-trans :
    {first second : List Publication} {p q r : Participant}
    → Sends first p q
    → Sends second q r
    → Sends (first ++ second) p r
Sends-trans {first} {second} {p} h g = record {
  sent = g.sent ∙ ap (λ l. l ++ second) h.sent ∙ append_assoc p.sent first second;
  journal = g.journal ∙ h.journal;
}

Sends-publish_state :
    (s : Option Safety) (now : ℤ) (correlation_id : Option String) (p : Participant)
    → (rest : List Publication) × Sends rest p (publish_state s now correlation_id p).0
unfolding publish_state
Sends-publish_state none now correlation_id p =
    ([], record { sent = sym (append-nil p.sent); journal = refl })
Sends-publish_state (some s) now correlation_id p =
    elim (Bool-cases (safety_changed p.last_published_safety s)) [
      | inl e ↦
          let (x, _, warned) = Sends-send safety_stream (state s) now correlation_id p in
          let q : Participant = record (send safety_stream (state s) now correlation_id p) {
            last_published_safety = some s;
          } in
          let (y, _, told) = Sends-send operational (state s) now correlation_id q in
          (
            x ∷ y ∷ [],
            rw e (record {
              sent = told.sent ∙ ap (λ l. l ++ y ∷ []) warned.sent ∙ append_assoc p.sent _ _;
              journal = told.journal ∙ warned.journal;
            }),
          )
      | inr e ↦
          let (y, _, told) =
            Sends-send operational (state s) now correlation_id
              (record p { last_published_safety = some s }) in
          (y ∷ [], rw e (record { sent = told.sent; journal = told.journal }))
    ]

-- `p'` has published the outcome `o` first of all that it published after `p`.
pub record Reports (o : Outcome) (p p' : Participant) : Type 0 where
  pub first : Publication
  pub rest : List Publication
  pub says : first.message ≡ outcome o
  pub sent : p'.sent ≡ p.sent ++ first ∷ rest

report-Reports :
    (o : Outcome) (reply : Reply) (correlation_id : Option String) (p : Participant)
    → Reports o p (report o reply correlation_id p).0
      × ((report o reply correlation_id p).0.journal ≡ p.journal)
report-Reports o reply correlation_id p =
    let (x, says, sent) =
      Sends-send operational (outcome o) reply.completed_at_ms correlation_id p in
    let (rest, more) =
      Sends-publish_state reply.state_read reply.completed_at_ms correlation_id
        (send operational (outcome o) reply.completed_at_ms correlation_id p) in
    let all = Sends-trans sent more in
    (record { first = x; rest = rest; says = says; sent = all.sent }, all.journal)

-- The journal has the outcome `o` for an assignment: its document is the one of `o`, or decodes to it.
pub record Stores (k : String) (o : Outcome) (j : Journal) : Type 0 where
  pub row : AssignmentRow
  pub at_key : row_of k j ≡ some row
  pub document : Json
  pub has : row.outcome_json ≡ some document
  pub agrees : (document ≡ outcome_payload o) ⊎ (decode_outcome document ≡ ok o)

lifted-eq-some :
    (m : Result ModelError Outcome) (o : Outcome)
    → (do found ← lift_model m; ok (some found)) ≡ ok (some o)
    → m ≡ ok o
lifted-eq-some (err e) o h = cc
lifted-eq-some (ok found) o h = ground arith

decode_optional-eq-some :
    (document : Option Json) (o : Outcome)
    → decode_optional document ≡ ok (some o)
    → (d : Json) × (document ≡ some d) × (decode_outcome d ≡ ok o)
decode_optional-eq-some none o h = cc
decode_optional-eq-some (some d) o h = (d, refl, lifted-eq-some (decode_outcome d) o h)

read_record-outcome :
    (r : AssignmentRow) (document : Option Json) (issuer_id : Option String)
    (latest : Option JournalRecord) (o : Outcome)
    → read_record r document issuer_id ≡ ok latest
    → stored_outcome latest ≡ some o
    → decode_optional r.outcome_json ≡ ok (some o)
read_record-outcome r (some d) (some issuer) latest o h stored =
    let (a, _, h₁) = >>=-eq-ok (lift_model (decode_assignment d)) _ h in
    let (found, decoded, h₂) = >>=-eq-ok (decode_optional r.outcome_json) _ h₁ in
    decoded ∙ ap ok (ground arith)
read_record-outcome r none issuer latest o h stored = ground arith
read_record-outcome r (some d) none latest o h stored = ground arith

lookup-Stores :
    (k : String) (j : Journal) (r : AssignmentRow) (latest : Option JournalRecord) (o : Outcome)
    → row_of k j ≡ some r
    → lookup k j ≡ ok latest
    → stored_outcome latest ≡ some o
    → Stores k o j
unfolding lookup
lookup-Stores k j r latest o at_key h stored =
    let read = sym (ap read_row at_key) ∙ h in
    let (d, has, decodes) =
      decode_optional-eq-some r.outcome_json o
        (read_record-outcome r r.assignment_json r.issuer_id latest o read stored) in
    record { row = r; at_key = at_key; document = d; has = has; agrees = inr decodes }

module _ (digest : Json → String) (job : Job) (reply : Reply) (p : Participant) where
  -- nothing was sent, or the journal has what was
  abbrev Settled : Participant → Type 0
  Settled p' =
      (p'.sent ≡ p.sent)
      ⊎ ((o : Outcome) × Reports o p p' × Stores job.assignment.assignment_id o p'.journal)

  module _ (r : AssignmentRow) (claimed : row_of job.assignment.assignment_id p.journal ≡ some r)
      (o : Outcome) where
    complete_cases :
        (done : Result JournalError Done)
        → (complete digest job.assignment o reply.completed_at_ms p.journal).0 ≡ done
        → Settled
            (reported_after done o reply job.correlation_id (record p {
              journal = (complete digest job.assignment o reply.completed_at_ms p.journal).1;
            })).0
    complete_cases (err e) h = inl refl
    complete_cases (ok _) h =
        let stores =
          complete-stores digest job.assignment "" o reply.completed_at_ms p.journal r claimed h in
        let later : Participant = record p {
          journal = (complete digest job.assignment o reply.completed_at_ms p.journal).1;
        } in
        let (reports, same) = report-Reports o reply job.correlation_id later in
        inr (
          o,
          record {
            first = reports.first;
            rest = reports.rest;
            says = reports.says;
            sent = reports.sent;
          },
          record {
            row = set_outcome o.status (outcome_payload o) reply.completed_at_ms r;
            at_key = ap (row_of job.assignment.assignment_id) same ∙ stores;
            document = outcome_payload o;
            has = refl;
            agrees = inl refl;
          },
        )

    settle_with_cases :
        (stored : Option Outcome) (latest : Option JournalRecord)
        → lookup job.assignment.assignment_id p.journal ≡ ok latest
        → stored_outcome latest ≡ stored
        → Settled (settle_with digest stored job o reply p).0
    settle_with_cases none latest h e =
        complete_cases (complete digest job.assignment o reply.completed_at_ms p.journal).0 refl
    settle_with_cases (some old) latest h e =
        let (reports, same) = report-Reports old reply job.correlation_id p in
        let kept = lookup-Stores job.assignment.assignment_id p.journal r latest old claimed h e in
        inr (
          old,
          reports,
          record {
            row = kept.row;
            at_key = ap (row_of job.assignment.assignment_id) same ∙ kept.at_key;
            document = kept.document;
            has = kept.has;
            agrees = kept.agrees;
          },
        )

    settle_cases :
        (latest : Result JournalError (Option JournalRecord))
        → lookup job.assignment.assignment_id p.journal ≡ latest
        → Settled (settle digest latest job o reply p).0
    settle_cases (err e) h = inl refl
    settle_cases (ok latest) h = settle_with_cases (stored_outcome latest) latest h refl

-- What the end of a claimed assignment's execution publishes is durable. Whatever the adapter
-- answered or raised, and whatever an operator or a cancellation wrote meanwhile, either nothing is
-- sent, or the first message sent is an outcome that the journal has then stored for the assignment:
-- its document is the outcome's, or decodes to it.
pub finish-Stores :
    (digest : Json → String) (job : Job) (reply : Reply) (p : Participant) (r : AssignmentRow)
    → row_of job.assignment.assignment_id p.journal ≡ some r
    → ((finish digest job reply p).0.sent ≡ p.sent)
      ⊎ ((o : Outcome) × Reports o p (finish digest job reply p).0
          × Stores job.assignment.assignment_id o (finish digest job reply p).0.journal)
unfolding finish
finish-Stores digest job reply p r claimed =
    settle_cases digest job reply p r claimed
      (outcome_or_unknown p.robot_id job.assignment.assignment_id
        (adapter_outcome p.robot_id job.assignment reply))
      (lookup job.assignment.assignment_id p.journal) refl
