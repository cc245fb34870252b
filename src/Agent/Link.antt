-- ===== src/Agent/Link.antt =====
-- The loop's variables, `resolve_reader_port`, and the attempt to connect of a round of `run_agent` of
-- src/mvd_edge/app.py.
use mvd_edge_agent.Prelude.{
  ℕ, ◌+◌, Bool, true, false, not, ◌&&◌, Option, none, some, List, [], ◌∷◌, leb, ltb, length,
  if◌then◌else◌, Text, codes, text_eq, upper,
}
use mvd_edge_agent.Outcome.{Outcome, ok, raised, Error}
use mvd_edge_agent.Host.{Host}
use mvd_edge_agent.Config.{EdgeConfig}
use mvd_edge_agent.Idt85.Device.{Idt85Reader, create}
use mvd_edge_agent.Connect.{connect_and_verify_reader}
use mvd_edge_agent.Connect.Port.{is_ready}
use mvd_edge_agent.Discovery.{
  Metadata, DiscoveryResult, ProbeSettings, UsbFilter, supported_readers, discover_reader_port,
}
use mvd_edge_agent.Discovery.Ports.{collect_metadata}
use mvd_edge_agent.Health.{
  HealthState, ReaderState, connecting, disconnected, config_error, set_reader_state,
  mark_reconnect_attempt, mark_reader_ready, clear_error, mark_error, mark_reader_offline,
}
use mvd_edge_agent.Presence.{PresenceState}
use mvd_edge_agent.Queue.{EventQueue}

-- What the loop gets besides the host: the default read delay and the polling interval of a sleep in
-- ticks, the version, and whether shutdown was requested.
pub record Platform (h : Host) : Type 0 where
  pub read_delay : ℕ
  pub poll_interval : ℕ
  pub agent_version : Text
  pub shutdown_requested : h.World → Bool

-- The variables of the loop.
pub record AgentState : Type 0 where
  pub reader : Option Idt85Reader
  pub presence : PresenceState
  pub queue : EventQueue
  pub health : HealthState
  pub reader_state : ReaderState
  pub next_reader_attempt : ℕ
  pub last_delivery_attempt : ℕ
  pub last_heartbeat_attempt : ℕ

abbrev pub is_disconnected : ReaderState → Bool
is_disconnected disconnected = true
is_disconnected _ = false

abbrev pub is_config_error : ReaderState → Bool
is_config_error config_error = true
is_config_error _ = false

-- A text that counts as true.
abbrev pub truthy : Option Text → Option Text
truthy none = none
truthy (some []) = none
truthy (some (c ∷ t)) = some (c ∷ t)

unfoldable pub should_auto_discover : Text → Bool
should_auto_discover serial_port = text_eq (upper serial_port) (codes "AUTO")

-- The port, the message, and the result of the search, if there was one.
pub record ResolvedPort : Type 0 where
  pub port : Option Text
  pub message : Text
  pub discovery : Option DiscoveryResult

-- The state after a search without a port.
abbrev pub state_of_search : Option DiscoveryResult → ReaderState
state_of_search none = disconnected
state_of_search (some result) =
    if ltb 1 (length (supported_readers result.devices)) then config_error else disconnected

-- The first writes of an attempt to connect.
abbrev pub begun : AgentState → AgentState
begun s = record s {
  reader_state = connecting;
  health = mark_reconnect_attempt (set_reader_state connecting s.health);
}

module _ (h : Host) (p : Platform h) where
  open h use {World, time}

  abbrev pub settings_of : EdgeConfig ℕ → ProbeSettings
  settings_of config = record {
    baudrate = config.serial_baud;
    reader_address = config.reader_address;
    read_delay = p.read_delay;
    reader_verify_method = config.reader_verify_method;
  }

  abbrev pub filter_of : EdgeConfig ℕ → UsbFilter
  filter_of config = record {
    usb_vendor_id = config.usb_vendor_id;
    usb_product_id = config.usb_product_id;
    usb_serial = config.usb_serial;
  }

  -- The search among the ports.
  unfoldable pub search_ports :
      EdgeConfig ℕ → Outcome (List Metadata) × World → Outcome DiscoveryResult × World
  search_ports config (raised e, w) = (raised e, w)
  search_ports config (ok ports, w) =
      discover_reader_port h (settings_of config) (filter_of config) ports w

  -- What a search is turned into.
  abbrev pub resolved_by : Outcome DiscoveryResult → Outcome ResolvedPort
  resolved_by (raised e) = raised e
  resolved_by (ok result) = ok (record {
    port = truthy result.selected_port;
    message = result.message;
    discovery = some result;
  })

  unfoldable pub resolve_reader_port : EdgeConfig ℕ → World → Outcome ResolvedPort × World
  unfolding search_ports
  resolve_reader_port config w =
      if not (should_auto_discover config.serial_port)
      then (
        ok (record {
          port = some config.serial_port;
          message = codes "Using configured serial port";
          discovery = none;
        }),
        w,
      )
      else let (outcome, w') = search_ports config (collect_metadata h w) in
        (resolved_by outcome, w')

  -- What the loop does with the state and the message that an attempt ended with.
  unfoldable pub after_attempt :
      EdgeConfig ℕ → ℕ → ReaderState → Text → AgentState → World → AgentState × World
  after_attempt config now state message s w =
      let health = set_reader_state state s.health in
      if is_ready state
      then (record s { reader_state = state; health = clear_error (mark_reader_ready health) }, w)
      else let error = if is_config_error state then message else codes "SERIAL_DISCONNECTED" in
        let (marked, w') = mark_error h error health w in
        (
          record s {
            reader_state = state;
            health = mark_reader_offline message marked;
            next_reader_attempt = now + config.reader_discovery_interval;
          },
          w',
        )

  -- No exception.
  abbrev pub going_on : AgentState × World → Option Error × AgentState × World
  going_on (s, w) = (none, s, w)

  -- The reader, once it is built, replaces the one before; an exception of its construction leaves
  -- the loop.
  unfoldable pub connect_built :
      EdgeConfig ℕ
      → ℕ
      → Outcome Idt85Reader
      → AgentState
      → World
      → Option Error × AgentState × World
  unfolding after_attempt
  connect_built config now (raised e) s w = (some e, s, w)
  connect_built config now (ok reader) s w =
      let (c, w') = connect_and_verify_reader h reader config.auto_configure_reader w in
      going_on (after_attempt config now c.state c.message (record s { reader = some c.reader }) w')

  unfoldable pub connect_resolved :
      EdgeConfig ℕ
      → ℕ
      → Option Text
      → ResolvedPort
      → AgentState
      → World
      → Option Error × AgentState × World
  unfolding connect_built after_attempt
  connect_resolved config now (some port) resolved s w =
      connect_built config now
        (create port config.serial_baud config.reader_address p.read_delay
          config.reader_verify_method)
        s w
  connect_resolved config now none resolved s w =
      going_on (after_attempt config now (state_of_search resolved.discovery) resolved.message s w)

  -- What follows the search; its exception leaves the loop.
  unfoldable pub attempt_resolved :
      EdgeConfig ℕ
      → ℕ
      → Outcome ResolvedPort
      → AgentState
      → World
      → Option Error × AgentState × World
  unfolding connect_resolved
  attempt_resolved config now (raised e) s w = (some e, s, w)
  attempt_resolved config now (ok resolved) s w =
      connect_resolved config now (truthy resolved.port) resolved s w

  unfoldable pub attempt_reader :
      EdgeConfig ℕ → ℕ → AgentState → World → Option Error × AgentState × World
  unfolding attempt_resolved resolve_reader_port
  attempt_reader config now s w =
      let (outcome, w') = resolve_reader_port config w in
      attempt_resolved config now outcome (begun s) w'

  unfoldable pub attempt_if_due :
      EdgeConfig ℕ → ℕ → AgentState → World → Option Error × AgentState × World
  attempt_if_due config now s w =
      if leb s.next_reader_attempt now && not (is_ready s.reader_state)
      then attempt_reader config now s w
      else (none, s, w)
