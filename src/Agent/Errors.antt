-- ===== src/Agent/Errors.antt =====
-- Which exceptions leave the agent's loop (src/mvd_edge/app.py).
use mvd_edge_agent.Prelude.{
  ℕ, ◌+◌, ◌≡◌, refl, Option, none, some, List, [], ◌∷◌, leb, arith, Text, ◌⊎◌, inl, inr, Bool-cases,
}
use mvd_edge_agent.Outcome.{Outcome, ok, raised, ◌>>=◌, Error, exception_of, request_error}
use mvd_edge_agent.Json.{Json, object}
use mvd_edge_agent.Host.{Host, Response}
use mvd_edge_agent.Config.{EdgeConfig}
use mvd_edge_agent.Idt85.Crc.{IsByte}
use mvd_edge_agent.Presence.{DetectedEvent}
use mvd_edge_agent.Cloud as Cloud
use mvd_edge_agent.Cloud.{
  CloudTransport, DeliveryResult, as_object, catch_request_error, read_heartbeat,
}
use mvd_edge_agent.Heartbeat.{send_heartbeat, build_heartbeat_payload}
use mvd_edge_agent.Agent.Link.{
  Platform, AgentState, ResolvedPort, resolve_reader_port, connect_built, connect_resolved,
  attempt_resolved, attempt_reader, attempt_if_due, search_ports, begun, truthy, settings_of,
  filter_of,
}
use mvd_edge_agent.Agent.Scanning.{scan_if_ready}
use mvd_edge_agent.Agent.{
  transport_of, heartbeat_if_due, after_heartbeat, after_beat, after_scan, after_events, after_link,
  round, rounds,
}
use mvd_edge_agent.Discovery.{Metadata}
use mvd_edge_agent.Discovery.Ports.{collect_metadata}
use mvd_edge_agent.Discovery.Paths.{RaisesOsErrors, collect_raises_not}
use mvd_edge_agent.Discovery.Building.{create_raises_not, discover_raises_not}
use mvd_edge_agent.Agent.Loop.{rounds_lem}

-- An answer whose reading raises nothing but `requests.RequestException`: the request failed, or the
-- status is not 200, or the text is a JSON object or no JSON at all.
abbrev pub IsReadable : Outcome Response → Type 0
IsReadable (raised e) = (t : Text) × (e ≡ request_error t)
IsReadable (ok response) =
    (response.status_code ≡ 200 → ⊥)
    ⊎ ((fields : _) × (response.json ≡ ok (object fields)))
    ⊎ ((t : Text) × (response.json ≡ raised (request_error t)))

module _ (h : Host) where
  open h use {World, post}

  read_heartbeat_raises_not :
      (answer : Outcome Response)
      → IsReadable answer
      → exception_of (catch_request_error (answer >>= read_heartbeat h)) ≡ none
  unfolding read_heartbeat as_object
  read_heartbeat_raises_not (raised e) readable = ground (arith, readable)
  read_heartbeat_raises_not (ok response) readable = ground (arith, readable)

  -- What the cloud answers to a POST, whatever was posted and when.
  abbrev pub Answers : (Outcome Response → Type 0) → Type 0
  Answers P =
      (url : Text) (headers : List (Text × Text)) (body : List (Text × Json)) (timeout : ℕ)
      (w : World)
      → P (post url headers body timeout w).0

  cloud_raises_not :
      (transport : CloudTransport) (heartbeat : List (Text × Json)) (w : World)
      → Answers IsReadable
      → exception_of (Cloud.send_heartbeat h transport heartbeat w).0 ≡ none
  unfolding Cloud.send_heartbeat
  cloud_raises_not transport heartbeat w readable =
      elim transport.heartbeat_url
        as (λ url.
          exception_of
            (Cloud.send_heartbeat h (record transport { heartbeat_url = url }) heartbeat w).0
          ≡ none) [
            | none ↦ refl
            | some url ↦
                elim url
                  as (λ url.
                    exception_of
                      (Cloud.send_heartbeat h (record transport { heartbeat_url = some url })
                        heartbeat w).0
                    ≡ none) [
                      | [] ↦ refl
                      | c ∷ url ↦
                          read_heartbeat_raises_not _
                            (readable (c ∷ url) _ heartbeat transport.timeout_seconds w)
                    ]
          ]

module _ (h : Host) (p : Platform h) (config : EdgeConfig ℕ) (byte : IsByte config.reader_address)
    (found : RaisesOsErrors h) where
  open h use {World, time}

  search_raises_not :
      (ports : Outcome (List Metadata) × World)
      → exception_of ports.0 ≡ none
      → exception_of (search_ports h p config ports).0 ≡ none
  unfolding search_ports
  search_raises_not (raised e, w) fine = cc
  search_raises_not (ok ports, w) fine =
      discover_raises_not h (settings_of h p config) (filter_of h p config) ports w byte

  resolve_raises_not : (w : World) → exception_of (resolve_reader_port h p config w).0 ≡ none
  unfolding resolve_reader_port
  resolve_raises_not w =
      ground (arith, search_raises_not (collect_metadata h w) (collect_raises_not h found w))

  attempt_resolved_raises_not :
      (now : ℕ) (outcome : Outcome ResolvedPort) (s : AgentState) (w : World)
      → exception_of outcome ≡ none
      → (attempt_resolved h p config now outcome s w).0 ≡ none
  unfolding attempt_resolved connect_resolved connect_built
  attempt_resolved_raises_not now (raised e) s w fine = cc
  attempt_resolved_raises_not now (ok resolved) s w fine = go (truthy resolved.port)
    where
      go : (port : Option Text) → (connect_resolved h p config now port resolved s w).0 ≡ none
      go none = refl
      go (some port) = ground (
        arith,
        create_raises_not port config.serial_baud config.reader_address p.read_delay
            config.reader_verify_method byte,
      )

  pub attempt_if_due_raises_not :
      (now : ℕ) (s : AgentState) (w : World) → (attempt_if_due h p config now s w).0 ≡ none
  unfolding attempt_if_due attempt_reader
  attempt_if_due_raises_not now s w = ground (
    arith,
    attempt_resolved_raises_not now (resolve_reader_port h p config w).0 (begun s)
        (resolve_reader_port h p config w).1 (resolve_raises_not w),
  )

  module _ (readable : Answers h IsReadable) where
    after_heartbeat_raises_not :
        (result : Outcome DeliveryResult × World) (s : AgentState)
        → exception_of result.0 ≡ none
        → (after_heartbeat h p result s).0 ≡ none
    unfolding after_heartbeat
    after_heartbeat_raises_not (raised e, w) s fine = cc
    after_heartbeat_raises_not (ok result, w) s fine = refl

    heartbeat_if_due_raises_not :
        (s : AgentState) (w : World) → (heartbeat_if_due h p config s w).0 ≡ none
    unfolding heartbeat_if_due send_heartbeat
    heartbeat_if_due_raises_not s w =
        let w1 = (time w).1 in
        let (payload, w2) = build_heartbeat_payload h p.agent_version config s.queue s.health w1 in
        elim (Bool-cases (leb (config.heartbeat_interval + s.last_heartbeat_attempt) (time w).0)) [
          | inl due ↦ rw due (
              after_heartbeat_raises_not
                (send_heartbeat h p.agent_version config (transport_of config) s.queue s.health w1)
                s (cloud_raises_not h (transport_of config) payload w2 readable))
          | inr early ↦ rw early refl
        ]

    after_beat_raises_not :
        (scan_start : ℕ) (beaten : Option Error × AgentState × World)
        → beaten.0 ≡ none
        → (after_beat h p config scan_start beaten).0 ≡ none
    unfolding after_beat
    after_beat_raises_not scan_start (some e, s, w) fine = fine
    after_beat_raises_not scan_start (none, s, w) fine = refl

    after_events_raises_not :
        (scan_start : ℕ) (scan : Option (List DetectedEvent) × AgentState × World)
        → (after_events h p config scan_start scan).0 ≡ none
    unfolding after_events after_scan
    after_events_raises_not scan_start (none, s, w) = refl
    after_events_raises_not scan_start (some events, s, w) =
        after_beat_raises_not scan_start (heartbeat_if_due h p config _ _)
          (heartbeat_if_due_raises_not _ _)

    after_link_raises_not :
        (scan_start : ℕ) (linked : Option Error × AgentState × World)
        → linked.0 ≡ none
        → (after_link h p config scan_start linked).0 ≡ none
    unfolding after_link
    after_link_raises_not scan_start (some e, s, w) fine = fine
    after_link_raises_not scan_start (none, s, w) fine =
        after_events_raises_not scan_start (scan_if_ready h p config s w)

    round_raises_not : (s : AgentState) (w : World) → (round h p config s w).0 ≡ none
    unfolding round
    round_raises_not s w =
        let (scan_start, w1) = time w in
        let (now, w2) = time w1 in
        after_link_raises_not scan_start (attempt_if_due h p config now s w2)
          (attempt_if_due_raises_not now s w2)

    -- Where the address is a byte, no answer of the cloud raises anything but a
    -- `requests.RequestException` when it is read, and listing and resolving paths raises nothing but
    -- `OSError`, no exception ends the loop, whatever the reader, the ports and the clocks do.
    pub rounds_raise_not : (n : ℕ) (s : AgentState) (w : World) → (rounds h p n config s w).0 ≡ none
    rounds_raise_not =
        rounds_lem h p config (λ s e t. e ≡ none) (λ s. refl) (λ s t u e first later. later)
          round_raises_not
