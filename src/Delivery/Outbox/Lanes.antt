-- ===== src/Delivery/Outbox/Lanes.antt =====
-- One message in flight for each peer and stream: the rows of `ready` in delivery.py.
use ump.Prelude.{
  ℕ, ◌+◌, ◌≤◌, String, ◌≡◌, refl, inl, inr, Bool, true, false, not, ◌&&◌, ◌||◌, Option, List, [],
  ◌∷◌, any, ◌==◌, arith, eq_iff, Bool-cases,
}
use ump.Prelude.Int.{ℤ, leb_ℤ}
use ump.Prelude.Count.{count, unit, count-take}
use ump.Delivery.Outbox.{Outbox, OutboundRow, is_pending}
use ump.Delivery.Outbox.Ready.{
  candidates, blocked_by, on_stream, sent_before, insert_row, order_rows, ready_rows,
}

-- the rows of one peer and stream
abbrev pub in_lane : String → String → OutboundRow → Bool
in_lane peer_id stream r = r.peer_id == peer_id && r.stream == stream

abbrev waits_in : String → String → OutboundRow → Bool
waits_in peer_id stream r = in_lane peer_id stream r && is_pending r.status

-- a row is blocked by any earlier pending row of its lane
blocked :
    (peer_id stream : String) (r : OutboundRow) (before : List OutboundRow)
    → in_lane peer_id stream r ≡ true
    → any (blocked_by r) before ≡ any (waits_in peer_id stream) before
blocked peer_id stream r [] h = refl
blocked peer_id stream r (x ∷ before) h = ground (
  arith,
  blocked peer_id stream r before h,
  eq_iff r.peer_id peer_id,
  eq_iff r.stream stream,
  eq_iff r.peer_id x.peer_id,
  eq_iff r.stream x.stream,
  eq_iff x.peer_id peer_id,
  eq_iff x.stream stream,
)

abbrev chosen : List OutboundRow → ℤ → Option String → OutboundRow → Bool
chosen before now only r =
    is_pending r.status
    && (not (any (blocked_by r) before) && (on_stream only r && leb_ℤ r.next_attempt_ms now))

not_more :
    (here waits : Bool) (later : ℕ) → later ≤ unit (not (here || waits)) → later ≤ unit (not waits)
not_more here waits later h = ground arith

-- at most one candidate of a lane, and none behind a pending row of it
candidates-lane :
    (peer_id stream : String) (before : List OutboundRow) (now : ℤ) (only : Option String)
    (rows : List OutboundRow)
    → count (in_lane peer_id stream) (candidates before now only rows)
      ≤ unit (not (any (waits_in peer_id stream) before))
unfolding candidates count
candidates-lane peer_id stream before now only [] = omega arith
candidates-lane peer_id stream before now only (r ∷ rows) =
    let ih = candidates-lane peer_id stream (r ∷ before) now only rows in
    let same = blocked peer_id stream r before in
    elim (Bool-cases (chosen before now only r)) [
      | inr out ↦ rw out (not_more (waits_in peer_id stream r) _ _ ih)
      | inl selected ↦ rw selected (elim (Bool-cases (in_lane peer_id stream r)) [
        | inr other ↦ let ih_here = rw other at ih in rw other (omega (arith, ih_here))
        | inl here ↦
            let free : any (waits_in peer_id stream) before ≡ false =
              ground (arith, same here, selected) in
            let pends : is_pending r.status ≡ true = ground (arith, selected) in
            let none_later = rw pends at (rw here at ih) in
            rw here (rw free (omega (arith, none_later)))
      ])
    ]

insert_row-count :
    (p : OutboundRow → Bool) (r : OutboundRow) (rows : List OutboundRow)
    → count p (insert_row r rows) ≡ unit (p r) + count p rows
unfolding insert_row count
insert_row-count p r [] = refl
insert_row-count p r (x ∷ rows) = elim (Bool-cases (sent_before r x)) [
  | inl e ↦ rw e (omega arith)
  | inr e ↦ rw e (omega (arith, insert_row-count p r rows))
]

order_rows-count :
    (p : OutboundRow → Bool) (rows : List OutboundRow) → count p (order_rows rows) ≡ count p rows
unfolding order_rows count
order_rows-count p [] = refl
order_rows-count p (r ∷ rows) =
    omega (arith, order_rows-count p rows, insert_row-count p r (order_rows rows))

-- `ready` selects at most one row for each peer and stream, whatever its limit and stream filter.
pub ready_rows-lane :
    (now : ℤ) (limit : ℕ) (only : Option String) (box : Outbox) (peer_id stream : String)
    → count (in_lane peer_id stream) (ready_rows now limit only box) ≤ 1
unfolding ready_rows
ready_rows-lane now limit only box peer_id stream = omega (
  arith,
  count-take (in_lane peer_id stream) limit (order_rows (candidates [] now only box.rows)),
  order_rows-count (in_lane peer_id stream) (candidates [] now only box.rows),
  candidates-lane peer_id stream [] now only box.rows,
)
