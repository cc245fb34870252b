-- ===== src/Agent/Stored.antt =====
-- The stored events and the agent's loop (src/mvd_edge/app.py).
use mvd_edge_agent.Prelude.{
  ℕ, ◌≡◌, sym, Bool, true, false, not, Option, none, some, List, [], ◌∷◌, arith, Text,
}
use mvd_edge_agent.Host.{Host}
use mvd_edge_agent.Config.{EdgeConfig}
use mvd_edge_agent.Outcome.{Outcome, Error}
use mvd_edge_agent.Presence.{DetectedEvent}
use mvd_edge_agent.Health.{mark_event}
use mvd_edge_agent.Queue.{EventQueue, QueuedEvent, get, enqueue}
use mvd_edge_agent.Queue.History.{
  IsKept, IsKept-trans, IsKept-refl, perform, perform-IsKept, enqueued,
}
use mvd_edge_agent.Delivery.{build_event_payload, attempt_immediate_delivery}
use mvd_edge_agent.Delivery.Stored.{process-IsKept}
use mvd_edge_agent.Agent.Link.{
  Platform, AgentState, ResolvedPort, connect_built, connect_resolved, attempt_resolved,
  attempt_reader, attempt_if_due, resolve_reader_port, after_attempt, begun,
}
use mvd_edge_agent.Agent.Scanning.{scan_with, scan_reader, scan_if_ready}
use mvd_edge_agent.Agent.{
  transport_of, origin_of, enqueue_events, deliver_now, deliver_if, deliver_if_due, delivery_of,
  heartbeat_if_due, after_heartbeat, after_beat, after_scan, after_events, after_link, round,
  rounds, is_empty,
}
use mvd_edge_agent.Agent.Loop.{rounds_lem}

module _ (h : Host) (p : Platform h) (config : EdgeConfig ℕ) where
  open h use {World, time}

  attempt_resolved-queue :
      (now : ℕ) (outcome : Outcome ResolvedPort) (s : AgentState) (w : World)
      → (attempt_resolved h p config now outcome s w).1.queue ≡ s.queue
  unfolding attempt_resolved connect_resolved connect_built after_attempt
  attempt_resolved-queue now outcome s w = ground arith

  pub attempt_if_due-queue :
      (now : ℕ) (s : AgentState) (w : World) → (attempt_if_due h p config now s w).1.queue ≡ s.queue
  unfolding attempt_if_due attempt_reader
  attempt_if_due-queue now s w = ground (
    arith,
    attempt_resolved-queue now (resolve_reader_port h p config w).0 (begun s)
        (resolve_reader_port h p config w).1,
  )

  pub scan_if_ready-queue :
      (s : AgentState) (w : World) → (scan_if_ready h p config s w).1.queue ≡ s.queue
  unfolding scan_if_ready scan_reader scan_with
  scan_if_ready-queue s w = ground arith

  module _ (id : Text) where
    IsKept-same :
        (a b : EventQueue) (c : Option QueuedEvent)
        → b ≡ a
        → IsKept (get id b) c
        → IsKept (get id a) c
    IsKept-same a b c same kept = rw (sym same) kept

    pub enqueue_events-IsKept :
        (events : List DetectedEvent) (s : AgentState) (w : World)
        → IsKept (get id s.queue) (get id (enqueue_events h p config events s w).0.queue)
    unfolding enqueue_events perform
    enqueue_events-IsKept [] s w = IsKept-refl h (get id s.queue)
    enqueue_events-IsKept (event ∷ events) s w =
        let (health, w1) = mark_event h s.health w in
        let (payload, w2) = build_event_payload h event (origin_of config) w1 in
        let (queue, w3) = enqueue h payload s.queue w2 in
        IsKept-trans (get id s.queue) (get id queue) _
          (perform-IsKept h (enqueued payload) s.queue w2 id)
          (enqueue_events-IsKept events (record s { health = health; queue = queue }) w3)

    deliver_if-IsKept :
        (due : Bool) (s : AgentState) (w : World)
        → IsKept (get id s.queue) (get id (deliver_if h p due config s w).0.queue)
    unfolding deliver_now attempt_immediate_delivery
    deliver_if-IsKept true s w =
        process-IsKept h id (transport_of config) config.queue_batch_size (delivery_of h p s) w
    deliver_if-IsKept false s w = IsKept-refl h (get id s.queue)

    pub after_heartbeat-queue :
        (s : AgentState) (w : World) → (heartbeat_if_due h p config s w).1.queue ≡ s.queue
    unfolding heartbeat_if_due after_heartbeat
    after_heartbeat-queue s w = ground arith

    pub after_beat-queue :
        (scan_start : ℕ) (beaten : Option Error × AgentState × World)
        → (after_beat h p config scan_start beaten).1.queue ≡ beaten.1.queue
    unfolding after_beat
    after_beat-queue scan_start beaten = ground arith

    pub after_enqueue-IsKept :
        (scan_start : ℕ) (events : List DetectedEvent) (s : AgentState) (w : World)
        → IsKept
            (get id (enqueue_events h p config events s w).0.queue)
            (get id (after_scan h p config scan_start events s w).1.queue)
    unfolding after_scan deliver_if_due
    after_enqueue-IsKept scan_start events s w =
        let queued = enqueue_events h p config events s w in
        let tried = deliver_if h p (not (is_empty events)) config queued.0 queued.1 in
        let retried = deliver_if_due h p config tried.0 tried.1 in
        rw
          (
            after_beat-queue scan_start (heartbeat_if_due h p config retried.0 retried.1),
            after_heartbeat-queue retried.0 retried.1,
          )
          (IsKept-trans (get id queued.0.queue) (get id tried.0.queue) _
            (deliver_if-IsKept (not (is_empty events)) queued.0 queued.1)
            (deliver_if-IsKept _ tried.0 (time tried.1).1))

    after_events-IsKept :
        (scan_start : ℕ) (scan : Option (List DetectedEvent) × AgentState × World)
        → IsKept (get id scan.1.queue) (get id (after_events h p config scan_start scan).1.queue)
    unfolding after_events
    after_events-IsKept scan_start (none, s, w) = IsKept-refl h (get id s.queue)
    after_events-IsKept scan_start (some events, s, w) =
        IsKept-trans (get id s.queue) (get id (enqueue_events h p config events s w).0.queue) _
          (enqueue_events-IsKept events s w) (after_enqueue-IsKept scan_start events s w)

    after_link-IsKept :
        (scan_start : ℕ) (linked : Option Error × AgentState × World)
        → IsKept (get id linked.1.queue) (get id (after_link h p config scan_start linked).1.queue)
    unfolding after_link
    after_link-IsKept scan_start (some e, s, w) = IsKept-refl h (get id s.queue)
    after_link-IsKept scan_start (none, s, w) =
        let scan = scan_if_ready h p config s w in
        IsKept-same s.queue scan.1.queue _ (scan_if_ready-queue s w)
          (after_events-IsKept scan_start scan)

    round-IsKept :
        (s : AgentState) (w : World)
        → IsKept (get id s.queue) (get id (round h p config s w).1.queue)
    unfolding round
    round-IsKept s w =
        let (scan_start, w1) = time w in
        let (now, w2) = time w1 in
        let linked = attempt_if_due h p config now s w2 in
        IsKept-same s.queue linked.1.queue _ (attempt_if_due-queue now s w2)
          (after_link-IsKept scan_start linked)

    -- However many rounds are run, and also where an exception ends them, an event that was stored
    -- stays stored, under its row and with its date of creation, its count of attempts never falls,
    -- and once delivered it stays delivered.
    pub rounds-IsKept :
        (n : ℕ) (s : AgentState) (w : World)
        → IsKept (get id s.queue) (get id (rounds h p n config s w).1.queue)
    rounds-IsKept =
        rounds_lem h p config (λ s e t. IsKept (get id s.queue) (get id t.queue))
          (λ s. IsKept-refl h (get id s.queue))
          (λ s t u e. IsKept-trans (get id s.queue) (get id t.queue) (get id u.queue)) round-IsKept
