-- ===== src/Agent/Recording.antt =====
-- How the events of a scan come to be in the queue (src/mvd_edge/app.py).
use mvd_edge_agent.Prelude.{
  ℕ, ◌≡◌, false, none, some, List, [], ◌∷◌, arith, All, Text, text_eq, text_eq_iff,
}
use mvd_edge_agent.Host.{Host}
use mvd_edge_agent.Config.{EdgeConfig}
use mvd_edge_agent.Payload.{EventPayload}
use mvd_edge_agent.Presence.{DetectedEvent}
use mvd_edge_agent.Health.{mark_event}
use mvd_edge_agent.Queue.{EventQueue, get, enqueue}
use mvd_edge_agent.Queue.Lookup.{get-enqueue}
use mvd_edge_agent.Delivery.{build_event_payload, or_reader}
use mvd_edge_agent.Delivery.Content.{content}
use mvd_edge_agent.Agent.Link.{Platform, AgentState}
use mvd_edge_agent.Agent.Invariant.{IsSound}
use mvd_edge_agent.Agent.Content.{KeepsContent, enqueue_events-content, after_enqueue-content}
use mvd_edge_agent.Agent.{origin_of, enqueue_events, after_scan}

-- What the queue is to hold of an event: where and when it was detected.
abbrev pub recorded : EdgeConfig ℕ → DetectedEvent → EventPayload
recorded config event = record {
  edge_event_id = event.edge_event_id;
  event = event.event_type;
  epc = event.epc;
  reader_id = or_reader event.reader_id config.reader_id;
  customer_id = some config.customer_id;
  site_id = some config.site_id;
  device_id = some config.device_id;
  application_profile = some config.application_profile;
  location_id = some config.location_id;
  zone_id = some config.zone_id;
  timestamp = event.edge_event_at;
  edge_event_at = event.edge_event_at;
  edge_send_at = [];
}

abbrev pub IsRecorded : EdgeConfig ℕ → EventQueue → DetectedEvent → Type 0
IsRecorded config queue event =
    content (get event.edge_event_id queue) ≡ some (recorded config event)

-- The identities of the events are new to the queue, and no two are the same.
abbrev pub AreFresh : EventQueue → List DetectedEvent → Type 0
AreFresh queue [] = Unit
AreFresh queue (event ∷ events) =
    (get event.edge_event_id queue ≡ none)
    × All (λ other. text_eq event.edge_event_id other.edge_event_id ≡ false) events
    × AreFresh queue events

module _ (h : Host) (p : Platform h) (config : EdgeConfig ℕ) where
  open h use {World, time}

  enqueue-IsRecorded :
      (event : DetectedEvent) (queue : EventQueue) (w v : World)
      → get event.edge_event_id queue ≡ none
      → IsRecorded config
          (enqueue h (build_event_payload h event (origin_of config) w).0 queue v).0
          event
  unfolding build_event_payload
  enqueue-IsRecorded event queue w v new =
      let payload = (build_event_payload h event (origin_of config) w).0 in
      ground (
        arith,
        new,
        get-enqueue h queue v payload event.edge_event_id,
        text_eq_iff event.edge_event_id event.edge_event_id,
      )

  enqueue-AreFresh :
      (event : DetectedEvent) (events : List DetectedEvent) (queue : EventQueue) (w v : World)
      → All (λ other. text_eq event.edge_event_id other.edge_event_id ≡ false) events
      → AreFresh queue events
      → AreFresh (enqueue h (build_event_payload h event (origin_of config) w).0 queue v).0 events
  unfolding build_event_payload
  enqueue-AreFresh event [] queue w v differ fresh = tt
  enqueue-AreFresh event (other ∷ others) queue w v differ fresh =
      let payload = (build_event_payload h event (origin_of config) w).0 in
      (
        ground (arith, differ.0, fresh.0, get-enqueue h queue v payload other.edge_event_id),
        fresh.1,
        enqueue-AreFresh event others queue w v differ.1 fresh.2,
      )

  enqueue_events-AreRecorded :
      (events : List DetectedEvent) (s : AgentState) (w : World)
      → AreFresh s.queue events
      → All (IsRecorded config (enqueue_events h p config events s w).0.queue) events
  unfolding enqueue_events
  enqueue_events-AreRecorded [] s w fresh = tt
  enqueue_events-AreRecorded (event ∷ events) s w fresh =
      let (health, w1) = mark_event h s.health w in
      let (payload, w2) = build_event_payload h event (origin_of config) w1 in
      let (queue, w3) = enqueue h payload s.queue w2 in
      let next = record s { health = health; queue = queue } in
      (
        enqueue_events-content h p config event.edge_event_id events next w3 (recorded config event)
            (enqueue-IsRecorded event s.queue w1 w2 fresh.0),
        enqueue_events-AreRecorded events next w3
            (enqueue-AreFresh event events s.queue w1 w2 fresh.1 fresh.2),
      )

  -- From sound variables, when a round ends, the queue holds every event that its scan detected with
  -- its identity, its kind, its tag and its time, and the names of the configuration, whether the deliveries succeed or not, and also
  -- where the heartbeat raises; the identities are to be new to the queue and no two the same.
  pub after_scan-AreRecorded :
      (scan_start : ℕ) (events : List DetectedEvent) (s : AgentState) (w : World)
      → IsSound s
      → AreFresh s.queue events
      → All (IsRecorded config (after_scan h p config scan_start events s w).1.queue) events
  after_scan-AreRecorded scan_start events s w v fresh =
      later-AreRecorded events (enqueue_events h p config events s w).0.queue
        (after_scan h p config scan_start events s w).1.queue
        (λ id. after_enqueue-content h p config id scan_start events s w v)
        (enqueue_events-AreRecorded events s w fresh)
    where
      later-AreRecorded :
          (events : List DetectedEvent) (a b : EventQueue)
          → ((id : Text) → KeepsContent h p config id a b)
          → All (IsRecorded config a) events
          → All (IsRecorded config b) events
      later-AreRecorded [] a b kept all = tt
      later-AreRecorded (event ∷ events) a b kept all = (
        kept event.edge_event_id (recorded config event) all.0,
        later-AreRecorded events a b kept all.1,
      )
