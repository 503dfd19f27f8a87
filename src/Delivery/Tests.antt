-- ===== src/Delivery/Tests.antt =====
-- Runs of the outbox, and its theorems at concrete queues.
use ump.Prelude.{◌≡◌, ◌≢◌, refl, ◌≤◌, ◌<◌, List, none, some, [], ◌∷◌, ok, err, arith}
use ump.Prelude.Count.{count}
use ump.Prelude.Int.{pos}
use ump.Models.Outcome.Size.{json_size}
use ump.Models.Codec.{assignment_payload, step_payload}
use ump.Transport.Samples.{state_update, safety_update, carry_message}
use ump.Transport.Envelope.{encode_envelope}
use ump.Delivery.Outbox.{
  Outbox, queue_full, preserving_safety, open_outbox, collect, insert_items, operational_items,
  enqueue_many, min, retry_delay,
}
use ump.Delivery.Outbox.Ready.{ready_rows}
use ump.Delivery.Outbox.Capacity.{
  IsWithin, OutboxCall, perform_call, perform_calls, perform_calls-IsWithin,
}
use ump.Delivery.Outbox.Reserve.{waiting_safety, enqueue_many-safety}
use ump.Delivery.Outbox.Lanes.{in_lane, ready_rows-lane}
use ump.Delivery.Outbox.Retry.{retry_delay_bounds}

-- an outbox of two places, one of them for the safety stream
abbrev small_box : Outbox
small_box = record { maximum_pending = 2; safety_reserve = 1; rows = [] }

open_run : open_outbox 2 (some 1) [] ≡ ok small_box
unfolding open_outbox
open_run = refl

abbrev used_box : Outbox
used_box = (enqueue_many (("robot-2", state_update) ∷ []) (pos 1000) small_box).1

-- the operational stream has no place left
refused_run :
    (enqueue_many (("robot-2", carry_message) ∷ []) (pos 1001) used_box).0 ≡ err preserving_safety
unfolding enqueue_many collect insert_items operational_items encode_envelope json_size count
    assignment_payload step_payload
refused_run = refl

abbrev calls : List OutboxCall
calls =
    OutboxCall.enqueuing (("robot-2", state_update) ∷ []) (pos 1000)
    ∷ OutboxCall.enqueuing (("robot-2", safety_update) ∷ []) (pos 1001)
    ∷ OutboxCall.failing "robot-2" "message-1" "timed out" (pos 1002) 100 5000
    ∷ OutboxCall.delivering "robot-2" "message-2" (pos 1003)
    ∷ []

perform_calls-IsWithin_example : IsWithin (perform_calls calls small_box)
perform_calls-IsWithin_example = perform_calls-IsWithin 2 (some 1) calls small_box open_run

used_box-IsWithin : IsWithin used_box
unfolding perform_calls perform_call
used_box-IsWithin =
    perform_calls-IsWithin 2 (some 1)
      (OutboxCall.enqueuing (("robot-2", state_update) ∷ []) (pos 1000) ∷ []) small_box open_run

no_safety : count waiting_safety used_box.rows < used_box.safety_reserve
unfolding enqueue_many collect insert_items operational_items encode_envelope json_size count
no_safety = omega arith

enqueue_many-safety_example :
    ((enqueue_many (("robot-2", safety_update) ∷ []) (pos 1001) used_box).0 ≢ err queue_full)
    × ((enqueue_many (("robot-2", safety_update) ∷ []) (pos 1001) used_box).0
        ≢ err preserving_safety)
enqueue_many-safety_example =
    enqueue_many-safety "robot-2" safety_update (pos 1001) used_box used_box-IsWithin no_safety refl

ready_rows-lane_example :
    count (in_lane "robot-2" "operational") (ready_rows (pos 2000) 64 none used_box) ≤ 1
ready_rows-lane_example = ready_rows-lane (pos 2000) 64 none used_box "robot-2" "operational"

retry_delay_bounds_example :
    (retry_delay 3 100 5000 ≤ 5000)
    × (min 100 5000 ≤ retry_delay 3 100 5000)
    × (retry_delay 3 100 5000 ≤ retry_delay 20 100 5000)
retry_delay_bounds_example = retry_delay_bounds 3 20 100 5000 (omega arith)
