-- ===== src/Agent/Scanning.antt =====
-- The scan of a round of `run_agent` of src/mvd_edge/app.py.
use mvd_edge_agent.Prelude.{ℕ, ◌+◌, not, Option, none, some, List, [], if◌then◌else◌}
use mvd_edge_agent.Host.{Host}
use mvd_edge_agent.Config.{EdgeConfig}
use mvd_edge_agent.Idt85.Device.{Idt85Reader}
use mvd_edge_agent.Connect.Port.{is_ready}
use mvd_edge_agent.Health.{HealthState, disconnected, set_reader_state}
use mvd_edge_agent.Presence.{DetectedEvent}
use mvd_edge_agent.Scan.{ScanState, read_inventory_events}
use mvd_edge_agent.Agent.Link.{Platform, AgentState, is_disconnected}

module _ (h : Host) (p : Platform h) where
  open h use {World, time}

  abbrev pub or_health : HealthState → Option HealthState → HealthState
  or_health old none = old
  or_health old (some s) = s

  abbrev pub scan_of : Idt85Reader → AgentState → ScanState
  scan_of reader s = record { reader = reader; presence = s.presence; health = some s.health }

  -- A scan and its writes, with the reader at hand.
  unfoldable pub scan_with :
      EdgeConfig ℕ → Idt85Reader → AgentState → World → List DetectedEvent × AgentState × World
  scan_with config reader s w =
      let (result, w1) = read_inventory_events h (scan_of reader s) (some config.reader_id) w in
      let scanned = record s {
        reader = some result.after.reader;
        presence = result.after.presence;
        health = set_reader_state result.reader_state (or_health s.health result.after.health);
        reader_state = result.reader_state;
      } in
      if is_disconnected result.reader_state
      then (let (now, w2) = time w1 in
          (
            result.events,
            record scanned { next_reader_attempt = now + config.reader_discovery_interval },
            w2,
          ))
      else (result.events, scanned, w1)

  -- The scan of a round, with the reader that the loop has; `none` stands for `continue`.
  unfoldable pub scan_reader :
      EdgeConfig ℕ
      → Option Idt85Reader
      → AgentState
      → World
      → Option (List DetectedEvent) × AgentState × World
  unfolding scan_with
  scan_reader config none s w = (
    none,
    record s { reader_state = disconnected; health = set_reader_state disconnected s.health },
    w,
  )
  scan_reader config (some reader) s w =
      let (events, s', w') = scan_with config reader s w in (some events, s', w')

  unfoldable pub scan_if_ready :
      EdgeConfig ℕ → AgentState → World → Option (List DetectedEvent) × AgentState × World
  unfolding scan_reader
  scan_if_ready config s w =
      if not (is_ready s.reader_state) then (some [], s, w) else scan_reader config s.reader s w
