-- ===== src/Delivery/Outbox/Reserve.antt =====
-- What the safety reserve of `SqliteOutbox` in delivery.py promises.
use ump.Prelude.{
  ◌+◌, ◌-◌, ◌≤◌, ◌<◌, String, ◌≡◌, ◌≢◌, refl, ap, ◌∙◌, inl, inr, Bool, true, false, not, ◌&&◌, ◌||◌,
  List, [], ◌∷◌, ◌++◌, any, length, ◌==◌, ltb, ok, err, ok-injective, err-injective, arith,
  Bool-cases, Result-cases,
}
use ump.Prelude.Int.{ℤ}
use ump.Prelude.Count.{count}
use ump.Transport.Envelope.{Envelope, encode_envelope, operational_stream, safety_stream}
use ump.Delivery.Outbox.{
  OutboxError, queue_full, preserving_safety, Outbox, OutboundRow, Item, is_pending, waiting,
  waiting_operational, encode_items, collect, insert_items, operational_items, new_row, clashes,
  row_for, same_item, same_bytes, enqueue_items, enqueue_many,
}
use ump.Delivery.Outbox.Capacity.{IsWithin}

-- pending messages of the other streams
abbrev pub waiting_safety : OutboundRow → Bool
waiting_safety r = is_pending r.status && not (r.stream == operational_stream)

count-streams :
    (rows : List OutboundRow)
    → count waiting rows ≡ count waiting_operational rows + count waiting_safety rows
unfolding count
count-streams [] = omega arith
count-streams (r ∷ rows) = elim (Bool-cases (is_pending r.status)) [
  | inr e ↦ rw e (omega (arith, count-streams rows))
  | inl e ↦ elim (Bool-cases (r.stream == operational_stream)) [
    | inl o ↦ rw e (rw o (omega (arith, count-streams rows)))
    | inr o ↦ rw e (rw o (omega (arith, count-streams rows)))
  ]
]

one_item :
    (a : Item)
    → a.envelope.stream ≡ safety_stream
    → (length (a ∷ []) ≤ 1) × (operational_items (a ∷ []) ≡ 0)
unfolding operational_items
one_item a s = (omega arith, rw s refl)

collect_one :
    (a : Item) (rows : List OutboundRow) (fresh : List Item)
    → a.envelope.stream ≡ safety_stream
    → collect (a ∷ []) [] [] rows ≡ ok fresh
    → (length fresh ≤ 1) × (operational_items fresh ≡ 0)
unfolding collect operational_items
collect_one a rows fresh s h =
    elim (Bool-cases (any (λ r. row_for a r && not (same_bytes r.envelope a.body)) rows)) [
      | inl other ↦ let impossible = rw other at h in cc
      | inr same ↦ elim (Bool-cases (any (row_for a) rows)) [
        | inl old ↦
            let none_new = ok-injective (rw old at (rw same at h)) in rw (← none_new) (omega arith)
        | inr free ↦
            let one_new = ok-injective (rw free at (rw same at h)) in rw (← one_new) (one_item a s)
      ]
    ]

-- `OutboxFullError`
abbrev is_full : OutboxError → Bool
is_full queue_full = true
is_full preserving_safety = true
is_full _ = false

collect-not_full :
    (items seen fresh : List Item) (rows : List OutboundRow) (e : OutboxError)
    → collect items seen fresh rows ≡ err e
    → is_full e ≡ false
unfolding collect
collect-not_full [] seen fresh rows e h = cc
collect-not_full (a ∷ rest) seen fresh rows e h =
    elim (Bool-cases (
      any (λ b. same_item b a && not (same_bytes b.body a.body)) seen
      || any (λ r. row_for a r && not (same_bytes r.envelope a.body)) rows)) [
        | inl other ↦ ground (arith, rw other at h)
        | inr same ↦ collect-not_full rest _ _ rows e (rw same at h)
      ]

insert_items-not_full :
    (items : List Item) (now : ℤ) (rows : List OutboundRow) (e : OutboxError)
    → insert_items items now rows ≡ err e
    → is_full e ≡ false
unfolding insert_items
insert_items-not_full [] now rows e h = cc
insert_items-not_full (a ∷ rest) now rows e h =
    elim (Bool-cases (any (clashes (new_row a now)) rows)) [
      | inl taken ↦ ground (arith, rw taken at h)
      | inr free ↦ insert_items-not_full rest now (rows ++ new_row a now ∷ []) e (rw free at h)
    ]

-- the two tests of the queue's bounds
room :
    (box : Outbox) (fresh : List Item)
    → IsWithin box
    → count waiting_safety box.rows < box.safety_reserve
    → length fresh ≤ 1
    → operational_items fresh ≡ 0
    → (ltb box.maximum_pending (count waiting box.rows + length fresh) ≡ false)
      × (ltb
            (box.maximum_pending - box.safety_reserve)
            (count waiting_operational box.rows + operational_items fresh)
          ≡ false)
room box fresh w few one none_operational =
    let split = count-streams box.rows in (ground (arith, split), ground arith)

enqueue_items-not_full :
    (a : Item) (now : ℤ) (box : Outbox) (e : OutboxError)
    → IsWithin box
    → count waiting_safety box.rows < box.safety_reserve
    → a.envelope.stream ≡ safety_stream
    → enqueue_items (a ∷ []) now box ≡ err e
    → is_full e ≡ false
unfolding enqueue_items
enqueue_items-not_full a now box e w few s h =
    elim (Result-cases (collect (a ∷ []) [] [] box.rows)) [
      | inr (e', p) ↦
          collect-not_full (a ∷ []) [] [] box.rows e (p ∙ ap err (err-injective (rw p at h)))
      | inl (fresh, p) ↦
          let (one, none_operational) = collect_one a box.rows fresh s p in
          let (total, spare) = room box fresh w few one none_operational in
          let h₁ = rw p at h in
          let h₂ = rw total at h₁ in
          let h₃ = rw spare at h₂ in
          elim (Result-cases (insert_items fresh now box.rows)) [
            | inr (e', q) ↦
                insert_items-not_full fresh now box.rows e (q ∙ ap err (err-injective (rw q at h₃)))
            | inl (rows, q) ↦ let impossible = rw q at h₃ in cc
          ]
    ]

enqueue_many-not_full :
    (peer_id : String) (e : Envelope) (now : ℤ) (box : Outbox) (f : OutboxError)
    → IsWithin box
    → count waiting_safety box.rows < box.safety_reserve
    → e.stream ≡ safety_stream
    → (enqueue_many ((peer_id, e) ∷ []) now box).0 ≡ err f
    → is_full f ≡ false
unfolding enqueue_many encode_items
enqueue_many-not_full peer_id e now box f w few s h = elim (Result-cases (encode_envelope e)) [
  | inr (t, p) ↦ ground (arith, p)
  | inl (body, p) ↦
      let a : Item = record { peer_id = peer_id; envelope = e; body = body } in
      elim (Result-cases (enqueue_items (a ∷ []) now box)) [
        | inr (e', q) ↦
            enqueue_items-not_full a now box f w few s (q ∙ ap err (ground (arith, p, q)))
        | inl (done, q) ↦ absurd (ground (arith, p, q))
      ]
]

-- In an outbox that is within its bounds (its pending messages, those of the operational stream, and
-- its reserve), as one that was opened over an empty table always is: while fewer than
-- `safety_reserve` messages of the safety stream are pending, the bounds never refuse one more.
-- Whatever the operational stream has queued, `enqueue_many` of one envelope of the safety stream
-- raises neither `OutboxFullError`.
pub enqueue_many-safety :
    (peer_id : String) (e : Envelope) (now : ℤ) (box : Outbox)
    → IsWithin box
    → count waiting_safety box.rows < box.safety_reserve
    → e.stream ≡ safety_stream
    → ((enqueue_many ((peer_id, e) ∷ []) now box).0 ≢ err queue_full)
      × ((enqueue_many ((peer_id, e) ∷ []) now box).0 ≢ err preserving_safety)
enqueue_many-safety peer_id e now box w few safety = (
  λ full. let not_full = enqueue_many-not_full peer_id e now box queue_full w few safety full in cc,
  λ full.
      let not_full = enqueue_many-not_full peer_id e now box preserving_safety w few safety full in
      cc,
)
