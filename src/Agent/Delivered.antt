-- ===== src/Agent/Delivered.antt =====
-- A round of the agent and a cloud that stores what it is sent (src/mvd_edge/app.py).
use mvd_edge_agent.Prelude.{
  ℕ, ◌+◌, ◌≤◌, ◌≡◌, Bool, true, false, some, List, [], ◌∷◌, ◌++◌, length, keep, arith, Option-cases,
  inl, inr, Text, All,
}
use mvd_edge_agent.Host.{Host}
use mvd_edge_agent.Config.{EdgeConfig}
use mvd_edge_agent.Payload.{EventPayload}
use mvd_edge_agent.Presence.{DetectedEvent}
use mvd_edge_agent.Health.{mark_event}
use mvd_edge_agent.Queue.{
  EventQueue, QueuedEvent, Row, delivered, is_pending, row_to_event, get, find_row, enqueue,
  new_row, pending_count,
}
use mvd_edge_agent.Delivery.{build_event_payload, attempt_immediate_delivery}
use mvd_edge_agent.Delivery.Content.{unsent}
use mvd_edge_agent.Delivery.Drained.{AlwaysStores, process-count}
use mvd_edge_agent.Delivery.Round.{pending_count-process}
use mvd_edge_agent.Agent.Link.{Platform, AgentState}
use mvd_edge_agent.Agent.Invariant.{IsSound}
use mvd_edge_agent.Agent.Rounds.{enqueue_events-IsSound, deliver_if-IsSound}
use mvd_edge_agent.Agent.Stored.{after_heartbeat-queue, after_beat-queue}
use mvd_edge_agent.Agent.Recording.{recorded, IsRecorded, AreFresh, after_scan-AreRecorded}
use mvd_edge_agent.Agent.{
  transport_of, origin_of, enqueue_events, deliver_now, deliver_if, deliver_if_due, delivery_of,
  after_scan, heartbeat_if_due,
}

-- Where no event is pending, a stored one is delivered.
status_of_none_pending :
    (id : Text) (rows : List Row) (row : Row)
    → length (keep is_pending rows) ≡ 0
    → find_row id rows ≡ some row
    → row.status ≡ delivered
unfolding find_row
status_of_none_pending id [] row none_left found = cc
status_of_none_pending id (first ∷ rows) row none_left found =
    ground (arith, none_left, found, status_of_none_pending id rows row)

keep_append_one :
    (rows : List Row) (row : Row)
    → length (keep is_pending (rows ++ row ∷ [])) ≤ length (keep is_pending rows) + 1
keep_append_one [] row = ground arith
keep_append_one (first ∷ rows) row = ground (arith, keep_append_one rows row)

-- What is delivered of an event: the queue has it, with what was to be recorded, as delivered.
abbrev pub IsDelivered : EdgeConfig ℕ → EventQueue → DetectedEvent → Type 0
IsDelivered config queue event =
    (e : QueuedEvent) × (get event.edge_event_id queue ≡ some e)
    × (unsent e.payload ≡ recorded config event)
    × (e.status ≡ delivered)

IsDelivered-of_recorded :
    (config : EdgeConfig ℕ) (queue : EventQueue) (event : DetectedEvent)
    → pending_count queue ≡ 0
    → IsRecorded config queue event
    → IsDelivered config queue event
unfolding get pending_count
IsDelivered-of_recorded config queue event none_left held =
    elim (Option-cases (find_row event.edge_event_id queue.rows)) [
      | inl missing ↦ cc (held, missing)
      | inr (row, found) ↦ (
        row_to_event row,
        ground (arith, found),
        ground (arith, held, found),
        status_of_none_pending event.edge_event_id queue.rows row none_left found,
      )
    ]

AreDelivered-of_recorded :
    (config : EdgeConfig ℕ) (queue : EventQueue) (events : List DetectedEvent)
    → pending_count queue ≡ 0
    → All (IsRecorded config queue) events
    → All (IsDelivered config queue) events
AreDelivered-of_recorded config queue [] none_left all = tt
AreDelivered-of_recorded config queue (event ∷ events) none_left all = (
  IsDelivered-of_recorded config queue event none_left all.0,
  AreDelivered-of_recorded config queue events none_left all.1,
)

module _ (h : Host) (p : Platform h) (config : EdgeConfig ℕ) where
  open h use {World, time}

  pending_count-enqueue :
      (payload : EventPayload) (queue : EventQueue) (w : World)
      → pending_count (enqueue h payload queue w).0 ≤ pending_count queue + 1
  unfolding pending_count enqueue
  pending_count-enqueue payload queue w = ground (
    arith,
    keep_append_one queue.rows (new_row (queue.sequence + 1) payload (h.utc_timestamp w).0),
  )

  pending_count-enqueue_events :
      (events : List DetectedEvent) (s : AgentState) (w : World)
      → pending_count (enqueue_events h p config events s w).0.queue
        ≤ pending_count s.queue + length events
  unfolding enqueue_events
  pending_count-enqueue_events [] s w = omega arith
  pending_count-enqueue_events (event ∷ events) s w =
      let (health, w1) = mark_event h s.health w in
      let (payload, w2) = build_event_payload h event (origin_of config) w1 in
      let (queue, w3) = enqueue h payload s.queue w2 in
      omega (
        arith,
        pending_count-enqueue payload s.queue w2,
        pending_count-enqueue_events events (record s { health = health; queue = queue }) w3,
      )

  module _ (stores : AlwaysStores h (transport_of config)) where
    deliver_if-empties :
        (due : Bool) (s : AgentState) (w : World)
        → IsSound s
        → pending_count s.queue ≡ 0
        → pending_count (deliver_if h p due config s w).0.queue ≡ 0
    unfolding deliver_now attempt_immediate_delivery
    deliver_if-empties false s w v empty = empty
    deliver_if-empties true s w v empty = omega (
      arith,
      empty,
      pending_count-process h (transport_of config) config.queue_batch_size (delivery_of h p s) w
          v.queue_valid,
    )

    deliver_now-empties :
        (s : AgentState) (w : World)
        → IsSound s
        → pending_count s.queue ≤ config.queue_batch_size
        → pending_count (deliver_now h p config s w).0.queue ≡ 0
    unfolding deliver_now attempt_immediate_delivery
    deliver_now-empties s w v few = ground (
      arith,
      few,
      process-count h (transport_of config) stores config.queue_batch_size (delivery_of h p s) w,
      pending_count-process h (transport_of config) config.queue_batch_size (delivery_of h p s) w
          v.queue_valid,
    )

    after_scan-empties :
        (scan_start : ℕ) (event : DetectedEvent) (events : List DetectedEvent) (s : AgentState)
        (w : World)
        → IsSound s
        → pending_count s.queue + length (event ∷ events) ≤ config.queue_batch_size
        → pending_count (after_scan h p config scan_start (event ∷ events) s w).1.queue ≡ 0
    unfolding after_scan deliver_if_due
    after_scan-empties scan_start event events s w v few =
        let queued = enqueue_events h p config (event ∷ events) s w in
        let tried = deliver_now h p config queued.0 queued.1 in
        let retried = deliver_if_due h p config tried.0 tried.1 in
        let sound = enqueue_events-IsSound h p config (event ∷ events) s w v in
        rw
          (
            after_beat-queue h p config event.edge_event_id scan_start
                (heartbeat_if_due h p config retried.0 retried.1),
            after_heartbeat-queue h p config event.edge_event_id retried.0 retried.1,
          )
          (deliver_if-empties _ tried.0 (time tried.1).1
            (deliver_if-IsSound h p config true queued.0 queued.1 sound)
            (deliver_now-empties queued.0 queued.1 sound
              (omega (arith, few, pending_count-enqueue_events (event ∷ events) s w))))

    -- From sound variables, with a cloud that stores whatever it is sent, where a scan detected at
    -- least one event and the batch holds these and all that are pending: when the round ends, the
    -- queue has every event of the scan, with its identity, kind, tag, time and the names of the
    -- configuration, as delivered, and no event is pending; the identities are to be new to the queue
    -- and no two the same.
    pub after_scan-AreDelivered :
        (scan_start : ℕ) (event : DetectedEvent) (events : List DetectedEvent) (s : AgentState)
        (w : World)
        → IsSound s
        → AreFresh s.queue (event ∷ events)
        → pending_count s.queue + length (event ∷ events) ≤ config.queue_batch_size
        → (pending_count (after_scan h p config scan_start (event ∷ events) s w).1.queue ≡ 0)
          × All
              (IsDelivered config (after_scan h p config scan_start (event ∷ events) s w).1.queue)
              (event ∷ events)
    after_scan-AreDelivered scan_start event events s w v fresh few =
        let none_left = after_scan-empties scan_start event events s w v few in
        let queue = (after_scan h p config scan_start (event ∷ events) s w).1.queue in
        (
          none_left,
          AreDelivered-of_recorded config queue (event ∷ events) none_left
              (after_scan-AreRecorded h p config scan_start (event ∷ events) s w v fresh),
        )
