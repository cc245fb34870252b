-- ===== src/Cli.antt =====
-- The command line of the agent: `main` of src/mvd_edge/app.py.
pub mod Format
pub mod Check
pub mod Report
pub mod Hidden
pub mod Success
use mvd_edge_agent.Prelude.{
  ℕ, Bool, true, false, Option, none, some, List, [], ◌∷◌, ◌++◌, Text, codes,
}
use mvd_edge_agent.Outcome.{Outcome, ok, raised, Error, message}
use mvd_edge_agent.Host.{Host}
use mvd_edge_agent.Config.{EdgeConfig}
use mvd_edge_agent.Config.Values.{Floats}
use mvd_edge_agent.Config.Environment.{Environment, from_env}
use mvd_edge_agent.Queue.{EventQueue}
use mvd_edge_agent.Agent.Link.{Platform, AgentState}
use mvd_edge_agent.Agent.{run_agent_on_file}
use mvd_edge_agent.Cli.Format.{labelled}
use mvd_edge_agent.Cli.Check.{check_config, version_line}

-- What `parse_args` returns.
pub record Arguments : Type 0 where
  pub version : Bool
  pub check_config : Bool

-- The version, the platform and Python's version.
pub record Release : Type 0 where
  pub agent_version : Text
  pub platform : Text
  pub python_version : Text

-- `ShutdownController`
pub record ShutdownController : Type 0 where
  pub requested : Bool

-- `request_shutdown`, with the name of the signal, if it is called for one, and what it prints.
abbrev pub request_shutdown : Option Text → ShutdownController → ShutdownController × List Text
request_shutdown none controller = (record { requested = true }, [])
request_shutdown (some name) controller =
    (record { requested = true }, [] ∷ labelled (codes "Shutdown requested:") name ∷ [])

abbrev pub is_requested : ShutdownController → Bool
is_requested controller = controller.requested

abbrev pub print_version : Release → List Text
print_version release =
    version_line release.agent_version
    ∷ labelled (codes "Platform:") release.platform
    ∷ labelled (codes "Python:") release.python_version
    ∷ []

abbrev pub mapped : {A B : Type 0} → (A → B) → Option A → Option B
mapped f none = none
mapped f (some a) = some (f a)

-- The configuration with its times in ticks.
abbrev pub in_ticks : {R : Type 0} → (R → ℕ) → EdgeConfig R → EdgeConfig ℕ
in_ticks ticks c = record {
  application_profile = c.application_profile;
  customer_id = c.customer_id;
  site_id = c.site_id;
  location_id = c.location_id;
  zone_id = c.zone_id;
  device_id = c.device_id;
  device_type = c.device_type;
  reader_id = c.reader_id;
  reader_address = c.reader_address;
  reader_verify_method = c.reader_verify_method;
  usb_vendor_id = c.usb_vendor_id;
  usb_product_id = c.usb_product_id;
  usb_serial = c.usb_serial;
  serial_port = c.serial_port;
  serial_baud = c.serial_baud;
  rfid_api_url = c.rfid_api_url;
  rfid_ingest_api_key = c.rfid_ingest_api_key;
  scan_interval = ticks c.scan_interval;
  exit_timeout = ticks c.exit_timeout;
  edge_data_dir = c.edge_data_dir;
  queue_retry_interval = ticks c.queue_retry_interval;
  queue_batch_size = c.queue_batch_size;
  serial_reconnect_interval = ticks c.serial_reconnect_interval;
  reader_discovery_interval = ticks c.reader_discovery_interval;
  auto_configure_reader = c.auto_configure_reader;
  heartbeat_interval = ticks c.heartbeat_interval;
  heartbeat_api_url = c.heartbeat_api_url;
  target_read_distance_m = mapped ticks c.target_read_distance_m;
  edge_log_dir = c.edge_log_dir;
}

abbrev pub startup_error : Error → ℕ × List Text
startup_error e = (1, labelled (codes "FATAL STARTUP ERROR:") (message e) ∷ [])

-- The exit status after `run_agent`, and what `main` prints of its exception.
abbrev pub exit_of : {W : Type 0} → Outcome (Option Error × AgentState × W) → ℕ × List Text
exit_of (raised e) = startup_error e
exit_of (ok (some e, s, w)) = startup_error e
exit_of (ok (none, s, w)) = (0, [])

module _ (h : Host) (p : Platform h) (f : Floats) (ticks : f.Real → ℕ) where
  open h use {World}

  -- What follows the reading of the configuration: `run_agent` over at most `n` rounds, on what
  -- opening the file of the queue comes to.
  unfoldable pub run_configured :
      ℕ → Outcome (Option EventQueue) → World → Outcome (EdgeConfig f.Real) → ℕ × List Text
  run_configured n file w (raised e) =
      (1, labelled (codes "FATAL CONFIGURATION ERROR:") (message e) ∷ [])
  run_configured n file w (ok config) =
      exit_of (run_agent_on_file h p n (in_ticks ticks config) file w)

  -- The exit status, and what `main` itself prints.
  unfoldable pub main :
      Release → Arguments → ℕ → Environment → Outcome (Option EventQueue) → World → ℕ × List Text
  unfolding run_configured
  main release arguments n env file w = elim arguments.version [
    | true ↦ (0, print_version release)
    | false ↦ elim arguments.check_config [
      | true ↦ check_config f release.agent_version (from_env f env)
      | false ↦ run_configured n file w (from_env f env)
    ]
  ]
