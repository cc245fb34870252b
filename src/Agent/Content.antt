-- ===== src/Agent/Content.antt =====
-- What the stored events say, and the agent's loop (src/mvd_edge/app.py).
use mvd_edge_agent.Prelude.{
  ℕ, ◌≡◌, ◌∙◌, Bool, true, false, not, Option, none, some, List, [], ◌∷◌, arith, Text,
}
use mvd_edge_agent.Host.{Host}
use mvd_edge_agent.Config.{EdgeConfig}
use mvd_edge_agent.Outcome.{Error}
use mvd_edge_agent.Payload.{EventPayload}
use mvd_edge_agent.Presence.{DetectedEvent}
use mvd_edge_agent.Health.{mark_event}
use mvd_edge_agent.Queue.{EventQueue, get, enqueue}
use mvd_edge_agent.Queue.Lookup.{get-enqueue}
use mvd_edge_agent.Delivery.{build_event_payload, attempt_immediate_delivery}
use mvd_edge_agent.Delivery.Content.{content, process-content}
use mvd_edge_agent.Agent.Link.{Platform, AgentState, attempt_if_due}
use mvd_edge_agent.Agent.Scanning.{scan_if_ready}
use mvd_edge_agent.Agent.Scans.{scan_if_ready-IsSound}
use mvd_edge_agent.Agent.Invariant.{IsSound, attempt_if_due-IsSound}
use mvd_edge_agent.Agent.Rounds.{enqueue_events-IsSound, deliver_if-IsSound, round-IsSound}
use mvd_edge_agent.Agent.Stored.{
  attempt_if_due-queue, scan_if_ready-queue, after_heartbeat-queue, after_beat-queue,
}
use mvd_edge_agent.Agent.Loop.{rounds_lem}
use mvd_edge_agent.Agent.{
  transport_of, origin_of, enqueue_events, deliver_now, deliver_if, deliver_if_due, delivery_of,
  heartbeat_if_due, after_scan, after_events, after_link, round, rounds, is_empty,
}

module _ (h : Host) (p : Platform h) (config : EdgeConfig ℕ) where
  open h use {World, time}

  module _ (id : Text) where
    -- An event that the first queue has says the same in the second.
    abbrev pub KeepsContent : EventQueue → EventQueue → Type 0
    KeepsContent a b =
        (said : EventPayload) → content (get id a) ≡ some said → content (get id b) ≡ some said

    enqueue-content :
        (payload : EventPayload) (queue : EventQueue) (w : World)
        → KeepsContent queue (enqueue h payload queue w).0
    enqueue-content payload queue w said held =
        ground (arith, held, get-enqueue h queue w payload id)

    pub enqueue_events-content :
        (events : List DetectedEvent) (s : AgentState) (w : World)
        → KeepsContent s.queue (enqueue_events h p config events s w).0.queue
    unfolding enqueue_events
    enqueue_events-content [] s w said held = held
    enqueue_events-content (event ∷ events) s w said held =
        let (health, w1) = mark_event h s.health w in
        let (payload, w2) = build_event_payload h event (origin_of config) w1 in
        let (queue, w3) = enqueue h payload s.queue w2 in
        enqueue_events-content events (record s { health = health; queue = queue }) w3 said
          (enqueue-content payload s.queue w2 said held)

    deliver_if-content :
        (due : Bool) (s : AgentState) (w : World)
        → IsSound s
        → KeepsContent s.queue (deliver_if h p due config s w).0.queue
    unfolding deliver_now attempt_immediate_delivery
    deliver_if-content true s w v said held =
        process-content h (transport_of config) config.queue_batch_size (delivery_of h p s) w
          v.queue_valid id
        ∙ held
    deliver_if-content false s w v said held = held

    pub after_enqueue-content :
        (scan_start : ℕ) (events : List DetectedEvent) (s : AgentState) (w : World)
        → IsSound s
        → KeepsContent
            (enqueue_events h p config events s w).0.queue
            (after_scan h p config scan_start events s w).1.queue
    unfolding after_scan deliver_if_due
    after_enqueue-content scan_start events s w v said held =
        let queued = enqueue_events h p config events s w in
        let tried = deliver_if h p (not (is_empty events)) config queued.0 queued.1 in
        let retried = deliver_if_due h p config tried.0 tried.1 in
        let sound = enqueue_events-IsSound h p config events s w v in
        rw
          (
            after_beat-queue h p config id scan_start
                (heartbeat_if_due h p config retried.0 retried.1),
            after_heartbeat-queue h p config id retried.0 retried.1,
          )
          (deliver_if-content _ tried.0 (time tried.1).1
            (deliver_if-IsSound h p config (not (is_empty events)) queued.0 queued.1 sound) said
            (deliver_if-content (not (is_empty events)) queued.0 queued.1 sound said held))

    after_events-content :
        (scan_start : ℕ) (scan : Option (List DetectedEvent) × AgentState × World)
        → IsSound scan.1
        → KeepsContent scan.1.queue (after_events h p config scan_start scan).1.queue
    unfolding after_events
    after_events-content scan_start (none, s, w) v said held = held
    after_events-content scan_start (some events, s, w) v said held =
        after_enqueue-content scan_start events s w v said
          (enqueue_events-content events s w said held)

    after_link-content :
        (scan_start : ℕ) (linked : Option Error × AgentState × World)
        → IsSound linked.1
        → KeepsContent linked.1.queue (after_link h p config scan_start linked).1.queue
    unfolding after_link
    after_link-content scan_start (some e, s, w) v said held = held
    after_link-content scan_start (none, s, w) v said held =
        after_events-content scan_start (scan_if_ready h p config s w)
          (scan_if_ready-IsSound h p config s w v) said
          (rw (scan_if_ready-queue h p config s w) held)

    round-content :
        (s : AgentState) (w : World)
        → IsSound s
        → KeepsContent s.queue (round h p config s w).1.queue
    unfolding round
    round-content s w v said held =
        let (scan_start, w1) = time w in
        let (now, w2) = time w1 in
        after_link-content scan_start (attempt_if_due h p config now s w2)
          (attempt_if_due-IsSound h p config now s w2 v) said
          (rw (attempt_if_due-queue h p config now s w2) held)

    -- Variables that are sound and keep what the event says.
    abbrev CarriesOver : AgentState → Option Error → AgentState → Type 0
    CarriesOver s e t = IsSound s → IsSound t × KeepsContent s.queue t.queue

    rounds-CarriesOver :
        (n : ℕ) (s : AgentState) (w : World)
        → CarriesOver s (rounds h p n config s w).0 (rounds h p n config s w).1
    rounds-CarriesOver =
        rounds_lem h p config CarriesOver (λ s v. (v, λ said held. held))
          (λ s t u e f g v. ((g (f v).0).0, λ said held. (g (f v).0).1 said ((f v).1 said held)))
          (λ s w v. (round-IsSound h p config s w v, round-content s w v))

    -- From sound variables, however many rounds are run, and also where an exception ends them, an
    -- event that the queue has says the same afterwards: its identity, its kind, its tag, its reader,
    -- its places and its time of detection; only the time at which it was sent may be another.
    pub content-rounds :
        (n : ℕ) (s : AgentState) (w : World)
        → IsSound s
        → (said : EventPayload) → content (get id s.queue) ≡ some said
        → content (get id (rounds h p n config s w).1.queue) ≡ some said
    content-rounds n s w v = (rounds-CarriesOver n s w v).1
