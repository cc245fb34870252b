-- ===== src/Delivery/One.antt =====
-- What the delivery of one event does to the queue (src/mvd_edge/app.py).
use mathlib.Core.Option
use mvd_edge_agent.Prelude.{
  ◌+◌, ◌≡◌, refl, ◌∙◌, Bool, true, false, some, arith, Text, text_eq, text_eq_refl, if◌then◌else◌,
}
use mvd_edge_agent.Host.{Host}
use mvd_edge_agent.Payload.{EventPayload}
use mvd_edge_agent.Outcome.{Outcome}
use mvd_edge_agent.Cloud.{CloudTransport, DeliveryResult, send_payload}
use mvd_edge_agent.Queue.{
  Row, QueuedEvent, EventQueue, is_pending, find_row, attempted, completed, pending_count,
  update_payload, mark_attempt, mark_delivered,
}
use mvd_edge_agent.Queue.Lookup.{find_row-update_where}
use mvd_edge_agent.Queue.Invariant.{
  IsValid, keep-update_where, keep-completed, update_payload-IsValid, mark_attempt-IsValid,
  mark_delivered-IsValid,
}
use mvd_edge_agent.Delivery.{DeliveryState, settled, attempt_error, mark_if_delivered, deliver}

-- The last write of a delivery, whether it is made or not.
module _ (h : Host) (id : Text) (queue : EventQueue) (w : h.World) where
  open h use {utc_timestamp}

  abbrev done_if : Bool → Row → Row
  done_if success row = if success then completed (utc_timestamp w).0 row else row

  find_row-mark_if_delivered :
      (success : Bool) (j : Text)
      → find_row j (mark_if_delivered h success id queue w).0.rows ≡ (
          if text_eq id j
          then Option.map (done_if success) (find_row j queue.rows)
          else find_row j queue.rows)
  unfolding mark_if_delivered mark_delivered
  find_row-mark_if_delivered true j =
      find_row-update_where id (completed (utc_timestamp w).0) j queue.rows (λ row. refl)
  find_row-mark_if_delivered false j = ground arith

  pending_count-mark_if_delivered :
      (success : Bool) (row : Row)
      → IsValid queue
      → find_row id queue.rows ≡ some row
      → is_pending row ≡ true
      → (if success then 1 else 0) + pending_count (mark_if_delivered h success id queue w).0
        ≡ pending_count queue
  unfolding mark_if_delivered mark_delivered pending_count
  pending_count-mark_if_delivered true row v found waits = omega (
    arith,
    keep-completed id (completed (utc_timestamp w).0) queue.rows row (λ r. refl) v.unique
        (λ r. refl) found waits,
  )
  pending_count-mark_if_delivered false row v found waits = omega arith

  mark_if_delivered-IsValid :
      (success : Bool) → IsValid queue → IsValid (mark_if_delivered h success id queue w).0
  unfolding mark_if_delivered
  mark_if_delivered-IsValid true v = mark_delivered-IsValid h queue w v id
  mark_if_delivered-IsValid false v = v

module _ (h : Host) (transport : CloudTransport) (event : QueuedEvent) (s : DeliveryState)
    (w : h.World) where
  open h use {World, timestamp, utc_timestamp}

  -- What is sent, what comes of it, and the worlds and times between.
  abbrev pub payload_sent : EventPayload
  payload_sent = record event.payload { edge_send_at = (timestamp w).0 }

  abbrev pub answered : Outcome DeliveryResult × World
  answered = send_payload h transport payload_sent (timestamp w).1

  abbrev pub result_of : DeliveryResult
  result_of = settled answered.0

  -- The row of the event after its delivery was tried.
  abbrev pub tried_row : Row → Row
  tried_row row =
      attempted (utc_timestamp answered.1).0 (attempt_error result_of)
        (record row { payload_json = payload_sent })

  abbrev pub final_row : Row → Row
  final_row row =
      if result_of.success
      then completed (utc_timestamp (utc_timestamp answered.1).1).0 (tried_row row)
      else tried_row row

  -- The queue between the attempt and the delivery mark.
  tried : EventQueue
  unfolding update_payload mark_attempt
  tried =
      (mark_attempt h event.edge_event_id (attempt_error result_of)
        (update_payload event.edge_event_id payload_sent s.queue) answered.1).0

  find_row-tried :
      (j : Text)
      → find_row j tried.rows ≡ (
          if text_eq event.edge_event_id j
          then Option.map tried_row (find_row j s.queue.rows)
          else find_row j s.queue.rows)
  unfolding tried
  find_row-tried j =
      let stored = update_payload event.edge_event_id payload_sent s.queue in
      ground (
        arith,
        find_row-update_where event.edge_event_id
            (λ row. record row { payload_json = payload_sent }) j s.queue.rows (λ row. refl),
        find_row-update_where event.edge_event_id
            (attempted (utc_timestamp answered.1).0 (attempt_error result_of)) j stored.rows
            (λ row. refl),
      )

  pending_count-tried : pending_count tried ≡ pending_count s.queue
  unfolding tried pending_count
  pending_count-tried =
      let stored = update_payload event.edge_event_id payload_sent s.queue in
      keep-update_where event.edge_event_id
        (attempted (utc_timestamp answered.1).0 (attempt_error result_of)) stored.rows (λ row. refl)
      ∙ keep-update_where event.edge_event_id (λ row. record row { payload_json = payload_sent })
          s.queue.rows (λ row. refl)

  tried-IsValid : IsValid s.queue → IsValid tried
  unfolding tried
  tried-IsValid v =
      mark_attempt-IsValid h (update_payload event.edge_event_id payload_sent s.queue) answered.1
        (update_payload-IsValid event.edge_event_id payload_sent s.queue v) event.edge_event_id
        (attempt_error result_of)

  -- One delivery counts one attempt for its event, which becomes delivered exactly if the cloud took
  -- it and else keeps its status with the error recorded; it leaves every other event as it was.
  pub find_row-deliver :
      (j : Text)
      → find_row j (deliver h transport event s w).1.queue.rows ≡ (
          if text_eq event.edge_event_id j
          then Option.map final_row (find_row j s.queue.rows)
          else find_row j s.queue.rows)
  unfolding deliver tried
  find_row-deliver j = ground (
    arith,
    find_row-tried j,
    find_row-mark_if_delivered h event.edge_event_id tried (utc_timestamp answered.1).1
        result_of.success j,
  )

  -- The number of pending events falls by one with a success, and stays with a failure.
  pub pending_count-deliver :
      IsValid s.queue
      → (row : Row) → find_row event.edge_event_id s.queue.rows ≡ some row
      → is_pending row ≡ true
      → (if (deliver h transport event s w).0 then 1 else 0)
          + pending_count (deliver h transport event s w).1.queue
        ≡ pending_count s.queue
  unfolding deliver tried
  pending_count-deliver v row found waits =
      pending_count-mark_if_delivered h event.edge_event_id tried (utc_timestamp answered.1).1
        result_of.success (tried_row row) (tried-IsValid v)
        (find_row-tried event.edge_event_id ∙ rw (text_eq_refl event.edge_event_id, found)) waits
      ∙ pending_count-tried

  pub deliver-IsValid : IsValid s.queue → IsValid (deliver h transport event s w).1.queue
  unfolding deliver tried
  deliver-IsValid v =
      mark_if_delivered-IsValid h event.edge_event_id tried (utc_timestamp answered.1).1
        result_of.success (tried-IsValid v)
