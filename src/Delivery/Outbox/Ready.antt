-- ===== src/Delivery/Outbox/Ready.antt =====
-- `ready` and `metrics` of `SqliteOutbox` in delivery.py.
use ump.Prelude.{
  ℕ, ◌+◌, String, Bool, true, not, ◌&&◌, ◌||◌, Option, none, some, List, [], ◌∷◌, any, take, ◌==◌,
  if◌then◌else◌, ltb, leb, Result, ok, err, ◌>>=◌, ◌>>◌, guard,
}
use ump.Prelude.Int.{ℤ, ltb_ℤ, leb_ℤ, eqb_ℤ}
use ump.Prelude.Count.{count}
use ump.Authority.Listing.{text_le}
use ump.Transport.Envelope.{Envelope, decode_envelope}
use ump.Delivery.Outbox.{OutboxError, bad_limit, invalid, OutboundRow, Outbox, is_pending, waiting}

-- the row is the pending one of its peer and stream with the least `queue_order`
abbrev pub same_lane : OutboundRow → OutboundRow → Bool
same_lane a b = a.peer_id == b.peer_id && a.stream == b.stream

abbrev pub on_stream : Option String → OutboundRow → Bool
on_stream none r = true
on_stream (some stream) r = r.stream == stream

abbrev pub blocked_by : OutboundRow → OutboundRow → Bool
blocked_by r earlier = same_lane r earlier && is_pending earlier.status

-- the rows that the WHERE clause of `ready` selects, given the rows before them
unfoldable pub candidates :
    List OutboundRow → ℤ → Option String → List OutboundRow → List OutboundRow
candidates before now_ms stream [] = []
candidates before now_ms stream (r ∷ rows) =
    let rest = candidates (r ∷ before) now_ms stream rows in
    if is_pending r.status
      && (not (any (blocked_by r) before) && (on_stream stream r && leb_ℤ r.next_attempt_ms now_ms))
    then r ∷ rest
    else rest

-- ORDER BY priority DESC, created_at_ms, peer_id
abbrev pub sent_before : OutboundRow → OutboundRow → Bool
sent_before a b =
    ltb b.priority a.priority
    || (leb b.priority a.priority
        && (ltb_ℤ a.created_at_ms b.created_at_ms
            || (eqb_ℤ a.created_at_ms b.created_at_ms && text_le a.peer_id b.peer_id)))

unfoldable pub insert_row : OutboundRow → List OutboundRow → List OutboundRow
insert_row r [] = r ∷ []
insert_row r (x ∷ xs) =
    let rest = insert_row r xs in if sent_before r x then r ∷ x ∷ xs else x ∷ rest

unfoldable pub order_rows : List OutboundRow → List OutboundRow
unfolding insert_row
order_rows [] = []
order_rows (r ∷ rows) = insert_row r (order_rows rows)

-- `PendingDelivery`
pub record PendingDelivery : Type 0 where
  pub peer_id : String
  pub envelope : Envelope
  pub attempts : ℕ
  pub next_attempt_ms : ℤ

unfoldable pub deliveries : List OutboundRow → Result OutboxError (List PendingDelivery)
deliveries [] = ok []
deliveries (r ∷ rows) = elim (decode_envelope r.envelope) [
  | err e ↦ err (invalid e)
  | ok envelope ↦ (do
    later ← deliveries rows
    ok (
        record {
          peer_id = r.peer_id;
          envelope = envelope;
          attempts = r.attempts;
          next_attempt_ms = r.next_attempt_ms;
        }
        ∷ later))
]

-- the rows of `ready`
unfoldable pub ready_rows : ℤ → ℕ → Option String → Outbox → List OutboundRow
unfolding candidates order_rows
ready_rows now_ms limit stream box = take limit (order_rows (candidates [] now_ms stream box.rows))

-- `ready`
unfoldable pub ready : ℤ → ℕ → Option String → Outbox → Result OutboxError (List PendingDelivery)
unfolding deliveries
ready now_ms limit stream box = do
  guard (leb 1 limit) bad_limit
  deliveries (ready_rows now_ms limit stream box)

-- `metrics`
pub record DeliveryMetrics : Type 0 where
  pub pending_count : ℕ
  pub delivered_count : ℕ
  pub failed_attempts : ℕ

unfoldable pub attempts_of : List OutboundRow → ℕ
attempts_of [] = 0
attempts_of (r ∷ rows) = r.attempts + attempts_of rows

unfoldable pub metrics : Outbox → DeliveryMetrics
metrics box = record {
  pending_count = count waiting box.rows;
  delivered_count = count (λ r. not (waiting r)) box.rows;
  failed_attempts = attempts_of box.rows;
}
