-- ===== src/Delivery/Outbox/Capacity.antt =====
-- The bounds of the queue of `SqliteOutbox` in delivery.py.
use ump.Prelude.{
  ℕ, ◌+◌, ◌-◌, ◌≤◌, ◌<◌, String, ◌≡◌, subst, ap, inl, inr, Bool, true, Option, List, [], ◌∷◌, ◌++◌,
  any, length, ltb, leb, ok, guard, refuse, guard-eq-ok, ltb→lt, >>=-eq-ok, refuse-eq-ok,
  ok-injective, arith, Bool-cases, Result-cases,
}
use ump.Prelude.Int.{ℤ}
use ump.Prelude.Table.{update}
use ump.Prelude.Count.{count, unit, count-append, count-update-le}
use ump.Transport.Envelope.{Envelope}
use ump.Delivery.Outbox.{
  queue_full, preserving_safety, Outbox, OutboundRow, Item, waiting, waiting_operational,
  encode_items, collect, insert_items, operational_items, new_row, clashes, enqueue_items,
  enqueue_many, is_message, mark_delivered, mark_failed, open_outbox, bad_maximum, bad_reserve,
  reserve_or_default,
}

-- The pending messages, and those of the operational stream, are within their bounds, and the
-- reserve is smaller than the bound on all.
pub record IsWithin (box : Outbox) : Type 0 where
  pub reserved : box.safety_reserve < box.maximum_pending
  pub total : count waiting box.rows ≤ box.maximum_pending
  pub operational : count waiting_operational box.rows ≤ box.maximum_pending - box.safety_reserve

insert_items-count :
    (items : List Item) (now : ℤ) (rows : List OutboundRow) {out : List OutboundRow}
    → insert_items items now rows ≡ ok out
    → (count waiting out ≡ count waiting rows + length items)
      × (count waiting_operational out ≡ count waiting_operational rows + operational_items items)
unfolding insert_items operational_items count
insert_items-count [] now rows h = ground (arith, h)
insert_items-count (a ∷ rest) now rows h = elim (Bool-cases (any (clashes (new_row a now)) rows)) [
  | inl taken ↦ let impossible = rw taken at h in cc
  | inr free ↦
      let (total, operational) =
        insert_items-count rest now (rows ++ new_row a now ∷ []) (rw free at h) in
      omega (
        arith,
        count-append waiting rows (new_row a now ∷ []),
        count-append waiting_operational rows (new_row a now ∷ []),
      )
]

enqueue_items-IsWithin :
    (items : List Item) (now : ℤ) (box box' : Outbox)
    → box.safety_reserve < box.maximum_pending
    → enqueue_items items now box ≡ ok (tt, box')
    → IsWithin box'
unfolding enqueue_items
enqueue_items-IsWithin items now box box' reserved h =
    let (fresh, collected, h₁) = >>=-eq-ok (collect items [] [] box.rows) _ h in
    let (_, room, h₂) =
      >>=-eq-ok
        (refuse (ltb box.maximum_pending (count waiting box.rows + length fresh)) queue_full) _
        h₁ in
    let (_, spare, h₃) =
      >>=-eq-ok
        (refuse
          (ltb (box.maximum_pending - box.safety_reserve)
            (count waiting_operational box.rows + operational_items fresh))
          preserving_safety)
        _ h₂ in
    let (rows, inserted, h₄) = >>=-eq-ok (insert_items fresh now box.rows) _ h₃ in
    let (total, operational) = insert_items-count fresh now box.rows {out = rows} inserted in
    let all_fit = refuse-eq-ok _ queue_full room in
    let operational_fit = refuse-eq-ok _ preserving_safety spare in
    let same : record box { rows = rows } ≡ box' = ap (λ r. r.1) (ok-injective h₄) in
    subst IsWithin same (record {
      reserved = reserved;
      total = ground (arith, total, all_fit);
      operational = ground (arith, operational, operational_fit);
    })

-- a call leaves the bounds as they were
module _ (box : Outbox) (w : IsWithin box) where
  enqueue_many-IsWithin :
      (deliveries : List (String × Envelope)) (now : ℤ)
      → IsWithin (enqueue_many deliveries now box).1
  unfolding enqueue_many
  enqueue_many-IsWithin [] now = w
  enqueue_many-IsWithin (first ∷ rest) now = elim (Result-cases (encode_items (first ∷ rest))) [
    | inr (e, p) ↦ rw p w
    | inl (items, p) ↦ elim (Result-cases (enqueue_items items now box)) [
      | inr (e, q) ↦ rw p (rw q w)
      | inl ((_, box'), q) ↦ rw p (rw q (enqueue_items-IsWithin items now box box' w.reserved q))
    ]
  ]

  -- a write that makes no row wait
  update-IsWithin :
      (q : OutboundRow → Bool) (f : OutboundRow → OutboundRow)
      → ((r : OutboundRow) → q r ≡ true → unit (waiting (f r)) ≤ unit (waiting r))
      → ((r : OutboundRow)
          → q r ≡ true
          → unit (waiting_operational (f r)) ≤ unit (waiting_operational r))
      → IsWithin (record box { rows = update q f box.rows })
  update-IsWithin q f fewer fewer_operational = record {
    reserved = w.reserved;
    total = omega (arith, count-update-le waiting q f box.rows fewer, w.total);
    operational =
        omega (
          arith,
          count-update-le waiting_operational q f box.rows fewer_operational,
          w.operational,
        );
  }

  mark_delivered-IsWithin :
      (peer_id message_id : String) (now : ℤ) → IsWithin (mark_delivered peer_id message_id now box)
  unfolding mark_delivered
  mark_delivered-IsWithin peer_id message_id now =
      update-IsWithin (is_message peer_id message_id) _ (λ r e. omega arith) (λ r e. omega arith)

  mark_failed-IsWithin :
      (peer_id message_id error : String) (now : ℤ) (base maximum : ℕ)
      → IsWithin (mark_failed peer_id message_id error now base maximum box)
  unfolding mark_failed
  mark_failed-IsWithin peer_id message_id error now base maximum =
      update-IsWithin (is_message peer_id message_id) _ (λ r e. omega arith) (λ r e. omega arith)

pub data OutboxCall : Type 0 where
  enqueuing : List (String × Envelope) → ℤ → OutboxCall
  delivering : String → String → ℤ → OutboxCall
  failing : String → String → String → ℤ → ℕ → ℕ → OutboxCall

-- The outbox after a call, whether it returned or raised.
unfoldable pub perform_call : OutboxCall → Outbox → Outbox
perform_call (enqueuing deliveries now) box = (enqueue_many deliveries now box).1
perform_call (delivering peer_id message_id now) box = mark_delivered peer_id message_id now box
perform_call (failing peer_id message_id error now base maximum) box =
    mark_failed peer_id message_id error now base maximum box

unfoldable pub perform_calls : List OutboxCall → Outbox → Outbox
unfolding perform_call
perform_calls [] box = box
perform_calls (c ∷ calls) box = perform_calls calls (perform_call c box)

perform_call-IsWithin :
    (c : OutboxCall) (box : Outbox) → IsWithin box → IsWithin (perform_call c box)
unfolding perform_call
perform_call-IsWithin (enqueuing deliveries now) box w = enqueue_many-IsWithin box w deliveries now
perform_call-IsWithin (delivering peer_id message_id now) box w =
    mark_delivered-IsWithin box w peer_id message_id now
perform_call-IsWithin (failing peer_id message_id error now base maximum) box w =
    mark_failed-IsWithin box w peer_id message_id error now base maximum

perform_calls-keeps :
    (calls : List OutboxCall) (box : Outbox) → IsWithin box → IsWithin (perform_calls calls box)
unfolding perform_calls
perform_calls-keeps [] box w = w
perform_calls-keeps (c ∷ calls) box w =
    perform_calls-keeps calls (perform_call c box) (perform_call-IsWithin c box w)

open_outbox-IsWithin :
    (maximum : ℕ) (reserve : Option ℕ) (box : Outbox)
    → open_outbox maximum reserve [] ≡ ok box
    → IsWithin box
unfolding open_outbox
open_outbox-IsWithin maximum reserve box h =
    let (_, _, h₁) = >>=-eq-ok (guard (leb 1 maximum) bad_maximum) _ h in
    let (_, smaller, h₂) =
      >>=-eq-ok (guard (ltb (reserve_or_default maximum reserve) maximum) bad_reserve) _ h₁ in
    subst IsWithin (ok-injective h₂) (record {
      reserved = ltb→lt _ _ (guard-eq-ok _ bad_reserve smaller);
      total = unfold count in omega arith;
      operational = unfold count in omega arith;
    })

-- An outbox that was opened over an empty table holds, after any calls, at most `maximum_pending`
-- pending messages, and at most `maximum_pending - safety_reserve` of them on the operational
-- stream.
pub perform_calls-IsWithin :
    (maximum : ℕ) (reserve : Option ℕ) (calls : List OutboxCall) (box : Outbox)
    → open_outbox maximum reserve [] ≡ ok box
    → IsWithin (perform_calls calls box)
perform_calls-IsWithin maximum reserve calls box h =
    perform_calls-keeps calls box (open_outbox-IsWithin maximum reserve box h)
