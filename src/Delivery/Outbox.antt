-- ===== src/Delivery/Outbox.antt =====
-- `SqliteOutbox` of delivery.py, over the rows of `outbound_messages` in the order of
-- `queue_order`. The lock and BEGIN IMMEDIATE make each method one step.
pub mod Ready
pub mod Capacity
pub mod Reserve
pub mod Lanes
pub mod Retry
use ump.Prelude.{
  ℕ, zero, suc, ◌+◌, ◌-◌, ◌*◌, ◌^◌, String, Bool, true, false, not, ◌&&◌, ◌||◌, Option, none, some,
  List, [], ◌∷◌, ◌++◌, any, length, take, ◌==◌, if◌then◌else◌, ltb, leb, is_some, Result, Done, ok,
  err, ◌>>=◌, ◌>>◌, guard, refuse, transaction,
}
use Prim.Native.Nat.{◌/◌}
use ump.Prelude.Int.{ℤ, pos, ◌+ℤ◌, ltb_ℤ, leb_ℤ, eqb_ℤ}
use ump.Prelude.Table.{select, update}
use ump.Prelude.Count.{count, unit}
use ump.Models.Json.{Json, json_eq}
use ump.Authority.Listing.{text_le}
use ump.Transport.Envelope.{
  Envelope, Encoded, TransportError, encode_envelope, decode_envelope, operational_stream,
  safety_stream,
}

-- One constructor for each `raise`; a violated UNIQUE constraint is `integrity_error`.
pub data OutboxError : Type 0 where
  queue_full preserving_safety rebound integrity_error bad_limit : OutboxError
  bad_maximum bad_reserve : OutboxError
  invalid : TransportError → OutboxError

pub data DeliveryStatus : Type 0 where
  pending delivered : DeliveryStatus

-- A row of `outbound_messages`.
pub record OutboundRow : Type 0 where
  pub peer_id : String
  pub message_id : String
  pub session_id : String
  pub stream : String
  pub sequence : ℤ
  pub priority : ℕ
  pub envelope : Encoded
  pub status : DeliveryStatus
  pub attempts : ℕ
  pub next_attempt_ms : ℤ
  pub last_error : Option String
  pub created_at_ms : ℤ
  pub updated_at_ms : ℤ

pub record Outbox : Type 0 where
  pub maximum_pending : ℕ
  pub safety_reserve : ℕ
  pub rows : List OutboundRow

abbrev pub min : ℕ → ℕ → ℕ
min a b = if leb a b then a else b

abbrev pub reserve_or_default : ℕ → Option ℕ → ℕ
reserve_or_default maximum none = min 64 (maximum / 10)
reserve_or_default maximum (some reserve) = reserve

-- `SqliteOutbox.__init__` over the table that the database has; a negative argument is not a number
-- of the model
unfoldable pub open_outbox : ℕ → Option ℕ → List OutboundRow → Result OutboxError Outbox
open_outbox maximum_pending safety_reserve rows = do
  guard (leb 1 maximum_pending) bad_maximum
  let reserve = reserve_or_default maximum_pending safety_reserve
  guard (ltb reserve maximum_pending) bad_reserve
  ok (record { maximum_pending = maximum_pending; safety_reserve = reserve; rows = rows })

abbrev pub is_pending : DeliveryStatus → Bool
is_pending pending = true
is_pending delivered = false

abbrev pub waiting : OutboundRow → Bool
waiting r = is_pending r.status

abbrev pub waiting_operational : OutboundRow → Bool
waiting_operational r = is_pending r.status && r.stream == operational_stream

-- `bytes(a) == bytes(b)`: the same length and the same text
abbrev pub same_document : Option Json → Option Json → Bool
same_document none none = true
same_document (some a) (some b) = json_eq a b
same_document _ _ = false

unfoldable pub same_bytes : Encoded → Encoded → Bool
same_bytes a b = leb a.size b.size && (leb b.size a.size && same_document a.document b.document)

-- one delivery of a call: the peer, the envelope and its bytes
pub record Item : Type 0 where
  pub peer_id : String
  pub envelope : Envelope
  pub body : Encoded

-- `encoded = tuple(...)`
unfoldable pub encode_items : List (String × Envelope) → Result OutboxError (List Item)
encode_items [] = ok []
encode_items ((peer_id, envelope) ∷ rest) = elim (encode_envelope envelope) [
  | err e ↦ err (invalid e)
  | ok body ↦ (do
    later ← encode_items rest
    ok (record { peer_id = peer_id; envelope = envelope; body = body } ∷ later))
]

abbrev pub same_item : Item → Item → Bool
same_item a b = a.peer_id == b.peer_id && a.envelope.message_id == b.envelope.message_id

abbrev pub row_for : Item → OutboundRow → Bool
row_for a r = r.peer_id == a.peer_id && r.message_id == a.envelope.message_id

-- the loop of `enqueue_many` that collects `new_items`; `seen` holds every item before
unfoldable pub collect :
    List Item → List Item → List Item → List OutboundRow → Result OutboxError (List Item)
unfolding same_bytes
collect [] seen fresh rows = ok fresh
collect (a ∷ rest) seen fresh rows =
    if any (λ b. same_item b a && not (same_bytes b.body a.body)) seen
      || any (λ r. row_for a r && not (same_bytes r.envelope a.body)) rows
    then err rebound
    else collect rest (a ∷ seen)
        (if any (row_for a) rows || any (λ b. same_item b a) fresh then fresh else fresh ++ a ∷ [])
        rows

abbrev pub new_row : Item → ℤ → OutboundRow
new_row a now_ms = record {
  peer_id = a.peer_id;
  message_id = a.envelope.message_id;
  session_id = a.envelope.session_id;
  stream = a.envelope.stream;
  sequence = a.envelope.sequence;
  priority = if a.envelope.stream == safety_stream then 1 else 0;
  envelope = a.body;
  status = pending;
  attempts = 0;
  next_attempt_ms = now_ms;
  last_error = none;
  created_at_ms = now_ms;
  updated_at_ms = now_ms;
}

-- the two UNIQUE constraints
abbrev pub clashes : OutboundRow → OutboundRow → Bool
clashes new r =
    (r.peer_id == new.peer_id && r.message_id == new.message_id)
    || (r.peer_id == new.peer_id
        && (r.session_id == new.session_id
            && (r.stream == new.stream && eqb_ℤ r.sequence new.sequence)))

-- the INSERTs
unfoldable pub insert_items :
    List Item → ℤ → List OutboundRow → Result OutboxError (List OutboundRow)
insert_items [] now_ms rows = ok rows
insert_items (a ∷ rest) now_ms rows =
    if any (clashes (new_row a now_ms)) rows
    then err integrity_error
    else insert_items rest now_ms (rows ++ new_row a now_ms ∷ [])

-- `sum(envelope.stream == OPERATIONAL_STREAM for ...)`
unfoldable pub operational_items : List Item → ℕ
operational_items [] = 0
operational_items (a ∷ rest) =
    unit (a.envelope.stream == operational_stream) + operational_items rest

unfoldable pub enqueue_items : List Item → ℤ → Outbox → Result OutboxError (Done × Outbox)
unfolding collect count operational_items
enqueue_items items now_ms box = do
  fresh ← collect items [] [] box.rows
  refuse (ltb box.maximum_pending (count waiting box.rows + length fresh)) queue_full
  refuse
      (ltb (box.maximum_pending - box.safety_reserve)
        (count waiting_operational box.rows + operational_items fresh))
      preserving_safety
  rows ← insert_items fresh now_ms box.rows
  ok (tt, record box { rows = rows })

-- `enqueue_many`
unfoldable pub enqueue_many :
    List (String × Envelope) → ℤ → Outbox → Result OutboxError Done × Outbox
unfolding encode_items enqueue_items
enqueue_many [] now_ms = λ box. (ok tt, box)
enqueue_many (first ∷ rest) now_ms =
    transaction (λ box. do items ← encode_items (first ∷ rest); enqueue_items items now_ms box)

abbrev pub is_message : String → String → OutboundRow → Bool
is_message peer_id message_id r =
    r.peer_id == peer_id && (r.message_id == message_id && is_pending r.status)

-- `delivered`
unfoldable pub mark_delivered : String → String → ℤ → Outbox → Outbox
mark_delivered peer_id message_id now_ms box = record box {
  rows =
      update (is_message peer_id message_id)
        (λ r. record r { status = delivered; updated_at_ms = now_ms }) box.rows;
}

-- the delay before the next attempt, after so many failed ones
unfoldable pub retry_delay : ℕ → ℕ → ℕ → ℕ
retry_delay attempts base_delay_ms maximum_delay_ms =
    min (base_delay_ms * 2 ^ min (attempts - 1) 16) maximum_delay_ms

-- `text[:size]`
abbrev pub cut : ℕ → String → String
cut zero text = ""
cut (suc n) String.[] = ""
cut (suc n) (String.◌∷◌ c rest) = String.◌∷◌ c (cut n rest)

-- `failed`; the row that SELECT finds is the one that UPDATE writes, by UNIQUE(peer_id, message_id)
unfoldable pub mark_failed : String → String → String → ℤ → ℕ → ℕ → Outbox → Outbox
unfolding retry_delay
mark_failed peer_id message_id error now_ms base_delay_ms maximum_delay_ms box = record box {
  rows =
      update (is_message peer_id message_id)
        (λ r. record r {
          attempts = r.attempts + 1;
          next_attempt_ms =
              now_ms +ℤ pos (retry_delay (r.attempts + 1) base_delay_ms maximum_delay_ms);
          last_error = some (cut 1024 error);
          updated_at_ms = now_ms;
        })
        box.rows;
}
