-- ===== src/Agent.antt =====
-- The loop of the agent, `run_agent` of src/mvd_edge/app.py.
pub mod Link
pub mod Scanning
pub mod Sleep
pub mod Invariant
pub mod Scans
pub mod Loop
pub mod Rounds
pub mod Stored
pub mod Recorded
pub mod Errors
pub mod Heartbeats
pub mod Endings
pub mod Restarts
pub mod Content
pub mod Recording
pub mod Arrivals
pub mod Delivered
use mvd_edge_agent.Prelude.{
  ℕ, zero, suc, ◌+◌, ◌-◌, Bool, true, false, not, Option, none, some, List, [], ◌∷◌, leb, ltb,
  if◌then◌else◌, Text, codes, text_eq, ◌++◌,
}
use mvd_edge_agent.Outcome.{Outcome, ok, raised, Error, runtime_error}
use mvd_edge_agent.Host.{Host}
use mvd_edge_agent.Config.{EdgeConfig}
use mvd_edge_agent.Reader.{close_port}
use mvd_edge_agent.Presence as Presence
use mvd_edge_agent.Presence.{DetectedEvent}
use mvd_edge_agent.Health as Health
use mvd_edge_agent.Health.{HealthState, disconnected, mark_event}
use mvd_edge_agent.Queue.{EventQueue, enqueue, open_queue}
use mvd_edge_agent.Cloud.{CloudTransport, DeliveryResult}
use mvd_edge_agent.Delivery.{
  Origin, DeliveryState, build_event_payload, process_pending_deliveries,
  attempt_immediate_delivery,
}
use mvd_edge_agent.Heartbeat.{send_heartbeat}
use mvd_edge_agent.Agent.Link.{Platform, AgentState, attempt_if_due}
use mvd_edge_agent.Agent.Scanning.{scan_if_ready, or_health}
use mvd_edge_agent.Agent.Sleep.{interruptible_sleep}

-- `IDT85` is the one supported device.
abbrev pub supported_device : Text
supported_device = codes "IDT85"

abbrev pub transport_of : EdgeConfig ℕ → CloudTransport
transport_of config = record {
  api_url = config.rfid_api_url;
  api_key = config.rfid_ingest_api_key;
  heartbeat_url = some config.heartbeat_api_url;
  timeout_seconds = 5;
}

abbrev pub origin_of : EdgeConfig ℕ → Origin
origin_of config = record {
  reader_id = config.reader_id;
  customer_id = some config.customer_id;
  site_id = some config.site_id;
  device_id = some config.device_id;
  application_profile = some config.application_profile;
  location_id = some config.location_id;
  zone_id = some config.zone_id;
}

abbrev pub is_empty : {A : Type 0} → List A → Bool
is_empty [] = true
is_empty (x ∷ xs) = false

module _ (h : Host) (p : Platform h) where
  open h use {World, time}

  -- The loop over the detected events.
  unfoldable pub enqueue_events :
      EdgeConfig ℕ → List DetectedEvent → AgentState → World → AgentState × World
  enqueue_events config [] s w = (s, w)
  enqueue_events config (event ∷ events) s w =
      let (health, w1) = mark_event h s.health w in
      let (payload, w2) = build_event_payload h event (origin_of config) w1 in
      let (queue, w3) = enqueue h payload s.queue w2 in
      enqueue_events config events (record s { health = health; queue = queue }) w3

  abbrev pub delivery_of : AgentState → DeliveryState
  delivery_of s = record { queue = s.queue; health = some s.health }

  -- `last_delivery_attempt = attempt_immediate_delivery(…)`
  unfoldable pub deliver_now : EdgeConfig ℕ → AgentState → World → AgentState × World
  deliver_now config s w =
      let (now, after, w') =
        attempt_immediate_delivery h (transport_of config) config.queue_batch_size (delivery_of s)
          w in
      (
        record s {
          queue = after.queue;
          health = or_health h p s.health after.health;
          last_delivery_attempt = now;
        },
        w',
      )

  abbrev pub deliver_if : Bool → EdgeConfig ℕ → AgentState → World → AgentState × World
  deliver_if true config s w = deliver_now config s w
  deliver_if false config s w = (s, w)

  -- `time.time() - last_delivery_attempt >= config.queue_retry_interval`
  unfoldable pub deliver_if_due : EdgeConfig ℕ → AgentState → World → AgentState × World
  deliver_if_due config s w =
      let (now, w') = time w in
      deliver_if (leb (config.queue_retry_interval + s.last_delivery_attempt) now) config s w'

  -- What follows a heartbeat; its exception leaves the loop.
  unfoldable pub after_heartbeat :
      Outcome DeliveryResult × World → AgentState → Option Error × AgentState × World
  after_heartbeat (raised e, w) s = (some e, s, w)
  after_heartbeat (ok result, w) s =
      let (sent, w') = time w in (none, record s { last_heartbeat_attempt = sent }, w')

  unfoldable pub heartbeat_if_due :
      EdgeConfig ℕ → AgentState → World → Option Error × AgentState × World
  unfolding after_heartbeat
  heartbeat_if_due config s w =
      let (now, w1) = time w in
      if leb (config.heartbeat_interval + s.last_heartbeat_attempt) now
      then after_heartbeat
          (send_heartbeat h p.agent_version config (transport_of config) s.queue s.health w1) s
      else (none, s, w1)

  abbrev pub slept : Option World → World → World
  slept none w = w
  slept (some w') w = w'

  -- The end of a round: the rest of the scan interval is slept away.
  unfoldable pub rest_of_interval : EdgeConfig ℕ → ℕ → World → World
  rest_of_interval config scan_start w =
      let (now, w') = time w in
      if ltb now (config.scan_interval + scan_start)
      then slept
          (interruptible_sleep h p.shutdown_requested p.poll_interval
            (config.scan_interval + scan_start - now) w')
          w'
      else w'

  -- The end of a round, unless the heartbeat raised.
  unfoldable pub after_beat :
      EdgeConfig ℕ → ℕ → Option Error × AgentState × World → Option Error × AgentState × World
  after_beat config scan_start (some e, s, w) = (some e, s, w)
  after_beat config scan_start (none, s, w) = (none, s, rest_of_interval config scan_start w)

  -- What follows the scan.
  unfoldable pub after_scan :
      EdgeConfig ℕ → ℕ → List DetectedEvent → AgentState → World → Option Error × AgentState × World
  unfolding after_beat
  after_scan config scan_start events s w =
      let (queued, w1) = enqueue_events config events s w in
      let (tried, w2) = deliver_if (not (is_empty events)) config queued w1 in
      let (retried, w3) = deliver_if_due config tried w2 in
      after_beat config scan_start (heartbeat_if_due config retried w3)

  -- What follows the scan, unless it ends in `continue`.
  unfoldable pub after_events :
      EdgeConfig ℕ
      → ℕ
      → Option (List DetectedEvent) × AgentState × World
      → Option Error × AgentState × World
  unfolding after_scan
  after_events config scan_start (none, s, w) = (none, s, w)
  after_events config scan_start (some events, s, w) = after_scan config scan_start events s w

  -- What follows the attempt to connect, unless it raised.
  unfoldable pub after_link :
      EdgeConfig ℕ → ℕ → Option Error × AgentState × World → Option Error × AgentState × World
  unfolding after_events
  after_link config scan_start (some e, s, w) = (some e, s, w)
  after_link config scan_start (none, s, w) =
      after_events config scan_start (scan_if_ready h p config s w)

  -- One round of the `while` loop.
  unfoldable pub round : EdgeConfig ℕ → AgentState → World → Option Error × AgentState × World
  unfolding after_link
  round config s w =
      let (scan_start, w1) = time w in
      let (now, w2) = time w1 in after_link config scan_start (attempt_if_due h p config now s w2)

  -- As many rounds as given, or up to the request of a shutdown or an exception.
  unfoldable pub rounds : ℕ → EdgeConfig ℕ → AgentState → World → Option Error × AgentState × World
  rounds zero config s w = (none, s, w)
  rounds (suc n) config s w = elim (p.shutdown_requested w) [
    | true ↦ (none, s, w)
    | false ↦ elim (round config s w).0 [
      | some e ↦ round config s w
      | none ↦ rounds n config (round config s w).1 (round config s w).2
    ]
  ]

  -- The `finally` clause: the port of the reader, if there is one, is closed.
  unfoldable pub shut_down : AgentState → World → AgentState × World
  shut_down s w = elim s.reader [
    | none ↦ (s, w)
    | some reader ↦
        let (closed, w') = close_port h reader w in (record s { reader = some closed }, w')
  ]

  -- The variables before the loop, with the deliveries that are tried first.
  unfoldable pub start : EdgeConfig ℕ → EventQueue → World → AgentState × World
  start config queue w =
      let health = Health.create disconnected in
      let (count, after, w1) =
        process_pending_deliveries h (transport_of config) config.queue_batch_size
          (record { queue = queue; health = some health }) w in
      let (now, w2) = time w1 in
      (
        record {
          reader = none;
          presence = Presence.create config.exit_timeout;
          queue = after.queue;
          health = or_health h p health after.health;
          reader_state = disconnected;
          next_reader_attempt = 0;
          last_delivery_attempt = now;
          last_heartbeat_attempt = 0;
        },
        w2,
      )

  -- `run_agent` over at most `n` rounds, on the queue that its file holds: an exception before the
  -- loop, or what stands after the `finally` clause, with the exception that goes on from there.
  unfoldable pub run_agent :
      ℕ → EdgeConfig ℕ → EventQueue → World → Outcome (Option Error × AgentState × World)
  run_agent n config queue w =
      if not (text_eq config.device_type supported_device)
      then raised (runtime_error (codes "Unsupported DEVICE_TYPE: " ++ config.device_type))
      else let (begun, w1) = start config queue w in
        let (error, ended, w2) = rounds n config begun w1 in
        let (closed, w3) = shut_down ended w2 in ok (error, closed, w3)

  -- `run_agent` with the opening of the queue, which comes after the test of the device.
  unfoldable pub run_agent_on_file :
      ℕ
      → EdgeConfig ℕ
      → Outcome (Option EventQueue)
      → World
      → Outcome (Option Error × AgentState × World)
  run_agent_on_file n config file w =
      if not (text_eq config.device_type supported_device)
      then raised (runtime_error (codes "Unsupported DEVICE_TYPE: " ++ config.device_type))
      else elim (open_queue file) [ raised e ↦ raised e | ok queue ↦ run_agent n config queue w ]
