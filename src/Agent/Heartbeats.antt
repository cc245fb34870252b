-- ===== src/Agent/Heartbeats.antt =====
-- Answers to a heartbeat that the transport does not expect, and what becomes of the loop
-- (src/mvd_edge/app.py, src/mvd_edge/transport/cloud.py).
use mvd_edge_agent.Prelude.{
  ℕ, suc, ◌+◌, ◌≡◌, ◌≤◌, refl, ◌∙◌, not, Bool, true, false, Option, none, some, List, [], ◌∷◌,
  arith, Text, Bool-cases, inl, inr, leb,
}
use mvd_edge_agent.Outcome.{Outcome, ok, raised, ◌>>=◌, Error}
use mvd_edge_agent.Json.{Json, object}
use mvd_edge_agent.Host.{Host, Response}
use mvd_edge_agent.Config.{EdgeConfig}
use mvd_edge_agent.Idt85.Crc.{IsByte}
use mvd_edge_agent.Cloud as Cloud
use mvd_edge_agent.Cloud.{
  headers_of, as_object, attribute_error, catch_request_error, read_heartbeat,
}
use mvd_edge_agent.Presence.{DetectedEvent}
use mvd_edge_agent.Health.{mark_event}
use mvd_edge_agent.Queue.{enqueue}
use mvd_edge_agent.Heartbeat.{send_heartbeat, build_heartbeat_payload}
use mvd_edge_agent.Idt85.Device.{Idt85Reader}
use mvd_edge_agent.Connect.Port as Port
use mvd_edge_agent.Discovery.Paths.{RaisesOsErrors}
use mvd_edge_agent.Delivery.{build_event_payload}
use mvd_edge_agent.Agent.Link.{
  Platform, AgentState, ResolvedPort, connect_built, connect_resolved, attempt_resolved,
  attempt_reader, attempt_if_due, resolve_reader_port, after_attempt, begun,
}
use mvd_edge_agent.Agent.Scanning.{scan_with, scan_reader, scan_if_ready}
use mvd_edge_agent.Agent.Invariant.{IsSound, holds_port, attempt_if_due-IsSound}
use mvd_edge_agent.Agent.Errors.{Answers, attempt_if_due_raises_not}
use mvd_edge_agent.Agent.{
  origin_of, enqueue_events, deliver_now, deliver_if, deliver_if_due, heartbeat_if_due,
  after_heartbeat, after_beat, after_scan, after_events, after_link, round, rounds, is_empty,
}

-- A JSON value that is no object.
abbrev pub is_object : Json → Bool
is_object (object fields) = true
is_object _ = false

-- An answer of status 200 whose text is that JSON value.
pub record IsAnswerOf (value : Json) (answer : Outcome Response) : Type 0 where
  pub response : Response
  pub arrived : answer ≡ ok response
  pub accepted : response.status_code ≡ 200
  pub parsed : response.json ≡ ok value

module _ (h : Host) (value : Json) (bare : is_object value ≡ false) where
  open h use {World, post}

  as_object-bare : as_object value ≡ raised (attribute_error value)
  unfolding as_object
  as_object-bare = ground (arith, bare)

  read_heartbeat-bare :
      (answer : Outcome Response)
      → IsAnswerOf value answer
      → catch_request_error (answer >>= read_heartbeat h) ≡ raised (attribute_error value)
  unfolding read_heartbeat
  read_heartbeat-bare answer b =
      rw (b.arrived, b.parsed, as_object-bare) (ground (arith, b.accepted))

module _ (h : Host) (p : Platform h) (config : EdgeConfig ℕ) where
  open h use {World, time, post}

  -- What stands before the heartbeat of a round leaves the time of the last one alone.
  attempt_resolved-last_heartbeat :
      (now : ℕ) (outcome : Outcome ResolvedPort) (s : AgentState) (w : World)
      → (attempt_resolved h p config now outcome s w).1.last_heartbeat_attempt
        ≡ s.last_heartbeat_attempt
  unfolding attempt_resolved connect_resolved connect_built after_attempt
  attempt_resolved-last_heartbeat now outcome s w = ground arith

  attempt_if_due-last_heartbeat :
      (now : ℕ) (s : AgentState) (w : World)
      → (attempt_if_due h p config now s w).1.last_heartbeat_attempt ≡ s.last_heartbeat_attempt
  unfolding attempt_if_due attempt_reader
  attempt_if_due-last_heartbeat now s w = ground (
    arith,
    attempt_resolved-last_heartbeat now (resolve_reader_port h p config w).0 (begun s)
        (resolve_reader_port h p config w).1,
  )

  scan_if_ready-last_heartbeat :
      (s : AgentState) (w : World)
      → (scan_if_ready h p config s w).1.last_heartbeat_attempt ≡ s.last_heartbeat_attempt
  unfolding scan_if_ready scan_reader scan_with
  scan_if_ready-last_heartbeat s w = ground arith

  enqueue_events-last_heartbeat :
      (events : List DetectedEvent) (s : AgentState) (w : World)
      → (enqueue_events h p config events s w).0.last_heartbeat_attempt ≡ s.last_heartbeat_attempt
  unfolding enqueue_events
  enqueue_events-last_heartbeat [] s w = refl
  enqueue_events-last_heartbeat (event ∷ events) s w =
      let (health, w1) = mark_event h s.health w in
      let (payload, w2) = build_event_payload h event (origin_of config) w1 in
      let (queue, w3) = enqueue h payload s.queue w2 in
      enqueue_events-last_heartbeat events (record s { health = health; queue = queue }) w3

  deliver_if-last_heartbeat :
      (due : Bool) (s : AgentState) (w : World)
      → (deliver_if h p due config s w).0.last_heartbeat_attempt ≡ s.last_heartbeat_attempt
  unfolding deliver_now
  deliver_if-last_heartbeat true s w = refl
  deliver_if-last_heartbeat false s w = refl

  -- Sound variables have a reader to scan with where they say that it is READY.
  scan_reader-some :
      (reader : Option Idt85Reader) (s : AgentState) (w : World)
      → holds_port reader ≡ true
      → (events : List DetectedEvent) × ((scan_reader h p config reader s w).0 ≡ some events)
  unfolding scan_reader
  scan_reader-some none s w held = cc
  scan_reader-some (some reader) s w held = (_, refl)

  module _ (value : Json) (bare : is_object value ≡ false) (found : RaisesOsErrors h)
      (byte : IsByte config.reader_address) (c : ℕ) (url : Text)
      (configured : config.heartbeat_api_url ≡ c ∷ url)
      (answers : Answers h (IsAnswerOf value)) where
    -- A heartbeat is due for these variables, whatever the clock shows.
    abbrev IsDue : AgentState → Type 0
    IsDue s = (w : World) → config.heartbeat_interval + s.last_heartbeat_attempt ≤ (time w).0

    heartbeat_if_due-raises :
        (s : AgentState) (w : World)
        → IsDue s
        → (heartbeat_if_due h p config s w).0 ≡ some (attribute_error value)
    unfolding heartbeat_if_due after_heartbeat send_heartbeat Cloud.send_heartbeat
    heartbeat_if_due-raises s w due =
        let (payload, w2) =
          build_heartbeat_payload h p.agent_version config s.queue s.health (time w).1 in
        let answer = (post (c ∷ url) (headers_of config.rfid_ingest_api_key) payload 5 w2).0 in
        ground (
          arith,
          due w,
          configured,
          read_heartbeat-bare h value bare answer
              (answers (c ∷ url) (headers_of config.rfid_ingest_api_key) payload 5 w2),
        )

    after_beat-raises :
        (scan_start : ℕ) (beaten : Option Error × AgentState × World) (e : Error)
        → beaten.0 ≡ some e
        → (after_beat h p config scan_start beaten).0 ≡ some e
    unfolding after_beat
    after_beat-raises scan_start (some e, s, w) other thrown = thrown
    after_beat-raises scan_start (none, s, w) other thrown = cc

    after_scan-raises :
        (scan_start : ℕ) (events : List DetectedEvent) (s : AgentState) (w : World)
        → IsDue s
        → (after_scan h p config scan_start events s w).0 ≡ some (attribute_error value)
    unfolding after_scan deliver_if_due
    after_scan-raises scan_start events s w due =
        let (queued, w1) = enqueue_events h p config events s w in
        let (tried, w2) = deliver_if h p (not (is_empty events)) config queued w1 in
        let again = leb (config.queue_retry_interval + tried.last_delivery_attempt) (time w2).0 in
        let (retried, w3) = deliver_if h p again config tried (time w2).1 in
        after_beat-raises scan_start (heartbeat_if_due h p config retried w3)
          (attribute_error value)
          (heartbeat_if_due-raises retried w3 (λ v. omega (
            arith,
            due v,
            enqueue_events-last_heartbeat events s w,
            deliver_if-last_heartbeat (not (is_empty events)) queued w1,
            deliver_if-last_heartbeat again tried (time w2).1,
          )))

    after_events-raises :
        (scan_start : ℕ) (scan : Option (List DetectedEvent) × AgentState × World)
        (events : List DetectedEvent)
        → scan.0 ≡ some events
        → IsDue scan.1
        → (after_events h p config scan_start scan).0 ≡ some (attribute_error value)
    unfolding after_events
    after_events-raises scan_start (none, s, w) events found_some due = cc
    after_events-raises scan_start (some events, s, w) other found_some due =
        after_scan-raises scan_start events s w due

    scan_if_ready-some :
        (s : AgentState) (w : World)
        → IsSound s
        → (events : List DetectedEvent) × ((scan_if_ready h p config s w).0 ≡ some events)
    unfolding scan_if_ready
    scan_if_ready-some s w sound = elim (Bool-cases (Port.is_ready s.reader_state)) [
      | inl ready ↦ rw ready (scan_reader-some s.reader s w (sound.port_held ∙ ready))
      | inr away ↦ rw away ([], refl)
    ]

    after_link-raises :
        (scan_start : ℕ) (linked : Option Error × AgentState × World)
        → linked.0 ≡ none
        → IsSound linked.1
        → IsDue linked.1
        → (after_link h p config scan_start linked).0 ≡ some (attribute_error value)
    unfolding after_link
    after_link-raises scan_start (some e, s, w) fine sound due = cc
    after_link-raises scan_start (none, s, w) fine sound due =
        let (events, scanned) = scan_if_ready-some s w sound in
        after_events-raises scan_start (scan_if_ready h p config s w) events scanned
          (λ v. omega (arith, due v, scan_if_ready-last_heartbeat s w))

    round-raises :
        (s : AgentState) (w : World)
        → IsSound s
        → IsDue s
        → (round h p config s w).0 ≡ some (attribute_error value)
    unfolding round
    round-raises s w sound due =
        let (scan_start, w1) = time w in
        let (now, w2) = time w1 in
        after_link-raises scan_start (attempt_if_due h p config now s w2)
          (attempt_if_due_raises_not h p config byte found now s w2)
          (attempt_if_due-IsSound h p config now s w2 sound)
          (λ v. omega (arith, due v, attempt_if_due-last_heartbeat now s w2))

    -- Where every request to the cloud is answered with the status 200 and one JSON value that is no
    -- object, the agent's loop ends in its first round with the exception that names the type of that
    -- value: for sound variables, a reader's address that is a byte, calls on paths that raise nothing
    -- but `OSError`, a heartbeat URL, no request of shutdown when the loop begins, and a heartbeat that
    -- is due whatever the clock shows.
    pub rounds-raise :
        (n : ℕ) (s : AgentState) (w : World)
        → IsSound s
        → p.shutdown_requested w ≡ false
        → ((v : World) → config.heartbeat_interval + s.last_heartbeat_attempt ≤ (time v).0)
        → (rounds h p (suc n) config s w).0 ≡ some (attribute_error value)
    unfolding rounds
    rounds-raise n s w sound wanted due = ground (arith, wanted, round-raises s w sound due)
