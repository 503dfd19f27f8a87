-- ===== src/Journal/Memory/History.antt =====
-- Histories of `MemoryAssignmentJournal` of journal.py, which is gone when the process ends.
use ump.Prelude.{
  String, ◌≡◌, ◌≢◌, refl, sym, ap, inl, inr, true, ◌||◌, not, Option, none, some, List, [], ◌∷◌,
  ◌==◌, if◌then◌else◌, is_some, Result, ok, err, arith, eq_iff, subst, Bool-cases, Result-cases,
  refuse, >>=-eq-ok, refuse-eq-ok,
}
use ump.Prelude.Table.{update, find, find-append}
use ump.Models.Json.{Json}
use ump.Models.Status.{AssignmentStatus}
use ump.Models.Step.{Assignment}
use ump.Models.Outcome.{Outcome, is_unknown}
use ump.Journal.Claim.{JournalError, only_unknown_resolved, validate_resolution}
use ump.Journal.Durable.{JournalRecord}
use ump.Journal.Memory.{
  MemoryJournal, new_journal, record_key, put, record_of, existing_record, memory_claim,
  memory_complete, memory_resolve_unknown,
}

pub data MemoryCall : Type 0 where
  claiming : Assignment → String → MemoryCall
  completing : Assignment → Outcome → MemoryCall
  resolving : String → AssignmentStatus → String → String → String → MemoryCall

abbrev pub after {ℓ} :
    {A : Type ℓ} → MemoryJournal → Result JournalError (A × MemoryJournal) → MemoryJournal
after j (ok (_, j')) = j'
after j (err _) = j

abbrev pub completed : MemoryJournal → Result JournalError MemoryJournal → MemoryJournal
completed j (ok j') = j'
completed j (err _) = j

-- The journal after a call, whether it returned or raised.
unfoldable pub memory_perform : (Json → String) → MemoryCall → MemoryJournal → MemoryJournal
memory_perform digest (claiming a issuer_id) j = (memory_claim digest a issuer_id j).1
memory_perform digest (completing a o) j = completed j (memory_complete digest a o j)
memory_perform digest (resolving id status description resolver evidence) j =
    after j (memory_resolve_unknown digest id status description resolver evidence j)

unfoldable pub memory_perform_all :
    (Json → String) → List MemoryCall → MemoryJournal → MemoryJournal
memory_perform_all digest [] j = j
memory_perform_all digest (c ∷ calls) j =
    memory_perform_all digest calls (memory_perform digest c j)

find-set :
    (k : String) (r : JournalRecord) (rows : List JournalRecord)
    → find record_key k (update (λ x. record_key x == record_key r) (λ _. r) rows) ≡ (
        if record_key r == k
        then (if is_some (find record_key (record_key r) rows) then some r else none)
        else find record_key k rows)
unfolding find update
find-set k r [] = ground arith
find-set k r (x ∷ rows) = ground (
  arith,
  find-set k r rows,
  eq_iff (record_key x) (record_key r),
  eq_iff (record_key r) k,
  eq_iff (record_key x) k,
)

find-put :
    (k : String) (r : JournalRecord) (rows : List JournalRecord)
    → find record_key k (put record_key r rows)
      ≡ (if record_key r == k then some r else find record_key k rows)
unfolding put
find-put k r rows = elim (Bool-cases (is_some (find record_key (record_key r) rows))) [
  | inl e ↦ rw e (rw (find-set k r rows) (rw e refl))
  | inr e ↦ rw e (ground (arith, e, find-append record_key k rows r, eq_iff (record_key r) k))
]

existing_record-found :
    (o : Option JournalRecord) (r : JournalRecord) → existing_record o ≡ ok r → o ≡ some r
existing_record-found none r h = cc
existing_record-found (some x) r h = cc

-- the issuer that `complete` keeps
abbrev issuer_of : Option JournalRecord → String
issuer_of none = ""
issuer_of (some r) = r.issuer_id

-- A record whose status is unknown has an outcome.
abbrev pub Answered : String → MemoryJournal → Type 0
Answered k j =
    (r : JournalRecord)
    → find record_key k j.records ≡ some r
    → is_unknown r.status ≡ true
    → is_some r.outcome ≡ true

module _ (digest : Json → String) (k : String) (j : MemoryJournal) (answered : Answered k j) where
  claim-Answered :
      (a : Assignment) (issuer_id : String) → Answered k (memory_claim digest a issuer_id j).1
  unfolding memory_claim
  claim-Answered a i r h u = ground (
    arith,
    h,
    u,
    answered r,
    find-put k (record_of digest a i AssignmentStatus.accepted none) j.records,
  )

  complete-Answered :
      (a : Assignment) (o : Outcome) → Answered k (completed j (memory_complete digest a o j))
  unfolding memory_complete
  complete-Answered a o r h u = ground (
    arith,
    h,
    u,
    answered r,
    find-put k
        (record_of digest a (issuer_of (find record_key a.assignment_id j.records)) o.status
          (some o))
        j.records,
  )

  resolve-raises :
      (status : AssignmentStatus) (description resolver evidence : String)
      (out : Outcome × MemoryJournal)
      → memory_resolve_unknown digest k status description resolver evidence j ≢ ok out
  unfolding memory_resolve_unknown
  resolve-raises status description resolver evidence out h =
      let (_, _, h₁) = >>=-eq-ok (validate_resolution status resolver evidence) _ h in
      let (r, found, h₂) = >>=-eq-ok (existing_record (find record_key k j.records)) _ h₁ in
      let (_, open_record, _) =
        >>=-eq-ok (refuse (not (is_unknown r.status) || is_some r.outcome) only_unknown_resolved) _
          h₂ in
      ground (
        arith,
        refuse-eq-ok _ only_unknown_resolved open_record,
        answered r (existing_record-found (find record_key k j.records) r found),
      )

perform-Answered :
    (digest : Json → String) (k : String) (c : MemoryCall) (j : MemoryJournal)
    → ((n : String) → Answered n j)
    → Answered k (memory_perform digest c j)
unfolding memory_perform
perform-Answered digest k (claiming a issuer_id) j h = claim-Answered digest k j (h k) a issuer_id
perform-Answered digest k (completing a o) j h = complete-Answered digest k j (h k) a o
perform-Answered digest k (resolving id status description resolver evidence) j h =
    elim (Result-cases (memory_resolve_unknown digest id status description resolver evidence j)) [
      | inl (out, e) ↦
          elim (resolve-raises digest id j (h id) status description resolver evidence out e) [ ]
      | inr (e, p) ↦ subst (Answered k) (sym (ap (after j) p)) (h k)
    ]

perform_all-Answered :
    (digest : Json → String) (calls : List MemoryCall) (j : MemoryJournal)
    → ((n : String) → Answered n j)
    → (k : String) → Answered k (memory_perform_all digest calls j)
unfolding memory_perform_all
perform_all-Answered digest [] j h k = h k
perform_all-Answered digest (c ∷ calls) j h k =
    perform_all-Answered digest calls (memory_perform digest c j)
      (λ n. perform-Answered digest n c j h) k

-- After any history of a new journal, `resolve_unknown` raises, for every assignment and every
-- resolution.
pub memory_resolve_unknown-raises :
    (digest : Json → String) (calls : List MemoryCall) (k : String) (status : AssignmentStatus)
    (description resolver evidence : String) (out : Outcome × MemoryJournal)
    → memory_resolve_unknown digest k status description resolver evidence
        (memory_perform_all digest calls new_journal)
      ≢ ok out
memory_resolve_unknown-raises digest calls k status description resolver evidence out =
    resolve-raises digest k (memory_perform_all digest calls new_journal)
      (perform_all-Answered digest calls new_journal
        (λ n r found u. unfold find in ground (arith, found)) k)
      status description resolver evidence out
