-- ===== src/Agent/Recorded.antt =====
-- The events of a scan and the rows of the queue (src/mvd_edge/app.py).
use mvd_edge_agent.Prelude.{ℕ, ◌≡◌, true, Option, List, [], ◌∷◌, arith, Text, text_eq_iff, All}
use mvd_edge_agent.Dict.{is_some}
use mvd_edge_agent.Host.{Host}
use mvd_edge_agent.Config.{EdgeConfig}
use mvd_edge_agent.Presence.{DetectedEvent}
use mvd_edge_agent.Health.{mark_event}
use mvd_edge_agent.Queue.{EventQueue, QueuedEvent, get, enqueue}
use mvd_edge_agent.Queue.Lookup.{get-enqueue}
use mvd_edge_agent.Queue.History.{IsKept}
use mvd_edge_agent.Delivery.{build_event_payload}
use mvd_edge_agent.Agent.Link.{Platform, AgentState}
use mvd_edge_agent.Agent.{origin_of, enqueue_events, after_scan}
use mvd_edge_agent.Agent.Stored.{enqueue_events-IsKept, after_enqueue-IsKept}

-- The queue has a row of the event.
abbrev pub IsStored : EventQueue → DetectedEvent → Type 0
IsStored queue event = is_some (get event.edge_event_id queue) ≡ true

IsKept-is_some : (a b : Option QueuedEvent) → IsKept a b → is_some a ≡ true → is_some b ≡ true
IsKept-is_some a b kept there = ground (arith, kept, there)

module _ (h : Host) (p : Platform h) (config : EdgeConfig ℕ) where
  open h use {World}

  enqueue-IsStored :
      (event : DetectedEvent) (queue : EventQueue) (w v : World)
      → IsStored (enqueue h (build_event_payload h event (origin_of config) w).0 queue v).0 event
  unfolding build_event_payload
  enqueue-IsStored event queue w v =
      let payload = (build_event_payload h event (origin_of config) w).0 in
      ground (
        arith,
        get-enqueue h queue v payload event.edge_event_id,
        text_eq_iff event.edge_event_id event.edge_event_id,
      )

  enqueue_events-IsStored :
      (events : List DetectedEvent) (s : AgentState) (w : World)
      → All (IsStored (enqueue_events h p config events s w).0.queue) events
  unfolding enqueue_events
  enqueue_events-IsStored [] s w = tt
  enqueue_events-IsStored (event ∷ events) s w =
      let (health, w1) = mark_event h s.health w in
      let (payload, w2) = build_event_payload h event (origin_of config) w1 in
      let (queue, w3) = enqueue h payload s.queue w2 in
      let next = record s { health = health; queue = queue } in
      (
        IsKept-is_some (get event.edge_event_id queue) _
            (enqueue_events-IsKept h p config event.edge_event_id events next w3)
            (enqueue-IsStored event s.queue w1 w2),
        enqueue_events-IsStored events next w3,
      )

  later-IsStored :
      (a b : EventQueue) (events : List DetectedEvent)
      → ((id : Text) → IsKept (get id a) (get id b))
      → All (IsStored a) events
      → All (IsStored b) events
  later-IsStored a b [] kept stored = tt
  later-IsStored a b (event ∷ events) kept stored = (
    IsKept-is_some (get event.edge_event_id a) (get event.edge_event_id b)
        (kept event.edge_event_id) stored.0,
    later-IsStored a b events kept stored.1,
  )

  -- When a round ends, every event that its scan detected has a row in the queue, whether the
  -- deliveries succeed or not, and also where the heartbeat raises.
  pub after_scan-IsStored :
      (scan_start : ℕ) (events : List DetectedEvent) (s : AgentState) (w : World)
      → All (IsStored (after_scan h p config scan_start events s w).1.queue) events
  after_scan-IsStored scan_start events s w =
      later-IsStored (enqueue_events h p config events s w).0.queue
        (after_scan h p config scan_start events s w).1.queue events
        (λ id. after_enqueue-IsKept h p config id scan_start events s w)
        (enqueue_events-IsStored events s w)
