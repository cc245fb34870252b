-- ===== src/Agent/Rounds.antt =====
-- Every round of the agent's loop keeps the invariant, and so does the whole run
-- (src/mvd_edge/app.py).
use mvd_edge_agent.Prelude.{
  ℕ, ◌≡◌, ◌+◌, refl, ap, sym, ◌∙◌, Bool, true, false, not, Option, none, some, List, [], ◌∷◌,
  Bool-cases, inl, inr, leb,
}
use mvd_edge_agent.Host.{Host}
use mvd_edge_agent.Config.{EdgeConfig}
use mvd_edge_agent.Outcome.{Outcome, ok, raised, Error}
use mvd_edge_agent.Connect.Port as Port
use mvd_edge_agent.Presence.{DetectedEvent}
use mvd_edge_agent.Health.{HealthState, mark_event}
use mvd_edge_agent.Health.Coherence.{report, report-IsCoherent, event_seen}
use mvd_edge_agent.Queue.Invariant.{IsValid, enqueue-IsValid}
use mvd_edge_agent.Queue.{enqueue}
use mvd_edge_agent.Cloud.{DeliveryResult}
use mvd_edge_agent.Heartbeat.{send_heartbeat}
use mvd_edge_agent.Delivery.{attempt_immediate_delivery, build_event_payload}
use mvd_edge_agent.Delivery.Round.{process-IsValid}
use mvd_edge_agent.Delivery.Reports.{KeepsLink, KeepsLinks, process-KeepsLinks}
use mvd_edge_agent.Agent.Link.{Platform, AgentState, attempt_if_due}
use mvd_edge_agent.Agent.Scanning.{scan_if_ready, or_health}
use mvd_edge_agent.Agent.Loop.{rounds_lem}
use mvd_edge_agent.Agent.Scans.{scan_if_ready-IsSound}
use mvd_edge_agent.Agent.Invariant.{IsSound, attempt_if_due-IsSound}
use mvd_edge_agent.Agent.{
  transport_of, origin_of, enqueue_events, deliver_now, deliver_if, deliver_if_due, delivery_of,
  heartbeat_if_due, after_heartbeat, after_beat, after_scan, after_events, after_link, round,
  rounds, is_empty,
}

module _ (h : Host) (p : Platform h) (config : EdgeConfig ℕ) where
  open h use {World, time}

  -- A change of the queue, of what is reported of events, and of the times.
  IsSound-later :
      (s t : AgentState)
      → IsSound s
      → t.reader ≡ s.reader
      → t.presence ≡ s.presence
      → t.reader_state ≡ s.reader_state
      → KeepsLink s.health t.health
      → IsValid t.queue
      → IsSound t
  IsSound-later s t v reader presence state link valid = record {
    queue_valid = valid;
    keys_unique = rw presence v.keys_unique;
    coherent = link.still_coherent v.coherent;
    port_held = rw (reader, state) v.port_held;
    reported = link.same_connected ∙ v.reported ∙ ap Port.is_ready (sym state);
    state_reported = link.same_state ∙ v.state_reported ∙ sym state;
  }

  pub enqueue_events-IsSound :
      (events : List DetectedEvent) (s : AgentState) (w : World)
      → IsSound s
      → IsSound (enqueue_events h p config events s w).0
  unfolding enqueue_events mark_event report
  enqueue_events-IsSound [] s w v = v
  enqueue_events-IsSound (event ∷ events) s w v =
      let (health, w1) = mark_event h s.health w in
      let (payload, w2) = build_event_payload h event (origin_of config) w1 in
      let (queue, w3) = enqueue h payload s.queue w2 in
      enqueue_events-IsSound events (record s { health = health; queue = queue }) w3
        (IsSound-later s (record s { health = health; queue = queue }) v refl refl refl
          (record {
            same_connected = refl;
            same_state = refl;
            still_coherent = report-IsCoherent h event_seen s.health w;
          })
          (enqueue-IsValid h s.queue w2 v.queue_valid payload))

  pub or_health-KeepsLink :
      (old : HealthState) (told : Option HealthState)
      → KeepsLinks (some old) told
      → KeepsLink old (or_health h p old told)
  or_health-KeepsLink old none link = elim link [ ]
  or_health-KeepsLink old (some s) link = link

  deliver_now-IsSound :
      (s : AgentState) (w : World) → IsSound s → IsSound (deliver_now h p config s w).0
  unfolding deliver_now attempt_immediate_delivery
  deliver_now-IsSound s w v =
      IsSound-later s _ v refl refl refl
        (or_health-KeepsLink s.health _ (
          process-KeepsLinks h (transport_of config) config.queue_batch_size (delivery_of h p s) w))
        (process-IsValid h (transport_of config) config.queue_batch_size (delivery_of h p s) w
          v.queue_valid)

  pub deliver_if-IsSound :
      (due : Bool) (s : AgentState) (w : World)
      → IsSound s
      → IsSound (deliver_if h p due config s w).0
  deliver_if-IsSound true s w v = deliver_now-IsSound s w v
  deliver_if-IsSound false s w v = v

  deliver_if_due-IsSound :
      (s : AgentState) (w : World) → IsSound s → IsSound (deliver_if_due h p config s w).0
  unfolding deliver_if_due
  deliver_if_due-IsSound s w v = deliver_if-IsSound _ s (time w).1 v

  after_heartbeat-IsSound :
      (result : Outcome DeliveryResult × World) (s : AgentState)
      → IsSound s
      → IsSound (after_heartbeat h p result s).1
  unfolding after_heartbeat
  after_heartbeat-IsSound (raised e, w) s v = v
  after_heartbeat-IsSound (ok result, w) s v = record {
    queue_valid = v.queue_valid;
    keys_unique = v.keys_unique;
    coherent = v.coherent;
    port_held = v.port_held;
    reported = v.reported;
    state_reported = v.state_reported;
  }

  heartbeat_if_due-IsSound :
      (s : AgentState) (w : World) → IsSound s → IsSound (heartbeat_if_due h p config s w).1
  unfolding heartbeat_if_due
  heartbeat_if_due-IsSound s w v =
      let w1 = (time w).1 in
      elim (Bool-cases (leb (config.heartbeat_interval + s.last_heartbeat_attempt) (time w).0)) [
        | inl due ↦ rw due (
            after_heartbeat-IsSound
              (send_heartbeat h p.agent_version config (transport_of config) s.queue s.health w1) s
              v)
        | inr early ↦ rw early v
      ]

  after_beat-IsSound :
      (scan_start : ℕ) (beaten : Option Error × AgentState × World)
      → IsSound beaten.1
      → IsSound (after_beat h p config scan_start beaten).1
  unfolding after_beat
  after_beat-IsSound scan_start (some e, s, w) v = v
  after_beat-IsSound scan_start (none, s, w) v = v

  after_scan-IsSound :
      (scan_start : ℕ) (events : List DetectedEvent) (s : AgentState) (w : World)
      → IsSound s
      → IsSound (after_scan h p config scan_start events s w).1
  unfolding after_scan
  after_scan-IsSound scan_start events s w v =
      let queued = enqueue_events h p config events s w in
      let tried = deliver_if h p (not (is_empty events)) config queued.0 queued.1 in
      let retried = deliver_if_due h p config tried.0 tried.1 in
      after_beat-IsSound scan_start (heartbeat_if_due h p config retried.0 retried.1) (
        heartbeat_if_due-IsSound retried.0 retried.1 (
          deliver_if_due-IsSound tried.0 tried.1 (
            deliver_if-IsSound (not (is_empty events)) queued.0 queued.1
              (enqueue_events-IsSound events s w v))))

  after_events-IsSound :
      (scan_start : ℕ) (scan : Option (List DetectedEvent) × AgentState × World)
      → IsSound scan.1
      → IsSound (after_events h p config scan_start scan).1
  unfolding after_events
  after_events-IsSound scan_start (none, s, w) v = v
  after_events-IsSound scan_start (some events, s, w) v = after_scan-IsSound scan_start events s w v

  after_link-IsSound :
      (scan_start : ℕ) (linked : Option Error × AgentState × World)
      → IsSound linked.1
      → IsSound (after_link h p config scan_start linked).1
  unfolding after_link
  after_link-IsSound scan_start (some e, s, w) v = v
  after_link-IsSound scan_start (none, s, w) v =
      after_events-IsSound scan_start (scan_if_ready h p config s w)
        (scan_if_ready-IsSound h p config s w v)

  pub round-IsSound : (s : AgentState) (w : World) → IsSound s → IsSound (round h p config s w).1
  unfolding round
  round-IsSound s w v =
      let (scan_start, w1) = time w in
      let (now, w2) = time w1 in
      after_link-IsSound scan_start (attempt_if_due h p config now s w2)
        (attempt_if_due-IsSound h p config now s w2 v)

  -- However many rounds are run, whatever the reader, the ports, the cloud and the clocks do, and
  -- also where an exception ends them: the queue and the presence stay valid and the health state
  -- coherent, the port is open and the reader reported as connected exactly if its state is READY,
  -- and that state is the one that is reported.
  pub rounds-IsSound :
      (n : ℕ) (s : AgentState) (w : World) → IsSound s → IsSound (rounds h p n config s w).1
  rounds-IsSound =
      rounds_lem h p config (λ s e t. IsSound s → IsSound t) (λ s v. v) (λ s t u e f g v. g (f v))
        round-IsSound
