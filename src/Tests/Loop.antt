-- ===== src/Tests/Loop.antt =====
-- The agent's loop on a test world.
use mvd_edge_agent.Prelude.{
  ℕ, ◌≡◌, refl, Bool, true, false, none, some, List, [], inl, leb, arith, Text, codes,
}
use mvd_edge_agent.Outcome.{ok}
use mvd_edge_agent.Json.{Json, nil, array}
use mvd_edge_agent.Host.{Host, Response}
use mvd_edge_agent.Config.{EdgeConfig}
use mvd_edge_agent.Presence.{DetectedEvent, enter}
use mvd_edge_agent.Agent.Link.{Platform, AgentState}
use mvd_edge_agent.Agent.Sleep.{
  IsSteady, IsPrompt, IsOverInTime, interruptible_sleep, interruptible_sleep-IsOverInTime,
}
use mvd_edge_agent.Agent.Invariant.{IsSound}
use mvd_edge_agent.Agent.{rounds, after_scan, heartbeat_if_due, run_agent}
use mvd_edge_agent.Agent.Rounds.{rounds-IsSound}
use mvd_edge_agent.Discovery.Paths.{RaisesOsErrors}
use mvd_edge_agent.Agent.Errors.{rounds_raise_not}
use mvd_edge_agent.Cloud.{attribute_error}
use mvd_edge_agent.Agent.Heartbeats.{IsAnswerOf, rounds-raise}
use mvd_edge_agent.Agent.Endings.{IsEnding, start-IsSound, run_agent-IsEnding}
use mvd_edge_agent.Agent as Agent
use mvd_edge_agent.Tests.{TestWorld, test_host, start, stored_answer}
use mvd_edge_agent.Tests.Agent.{two_events, two_events-IsValid}

abbrev pub test_config : EdgeConfig ℕ
test_config = record {
  application_profile = codes "RETAIL";
  customer_id = codes "C1";
  site_id = codes "S1";
  location_id = codes "L1";
  zone_id = codes "Z1";
  device_id = codes "D1";
  device_type = codes "IDT85";
  reader_id = codes "R1";
  reader_address = 0;
  reader_verify_method = codes "AUTO";
  usb_vendor_id = none;
  usb_product_id = none;
  usb_serial = none;
  serial_port = codes "/dev/ttyUSB0";
  serial_baud = 57600;
  rfid_api_url = codes "https://example.test/events";
  rfid_ingest_api_key = none;
  scan_interval = 2;
  exit_timeout = 5;
  edge_data_dir = codes "data";
  queue_retry_interval = 5;
  queue_batch_size = 10;
  serial_reconnect_interval = 5;
  reader_discovery_interval = 5;
  auto_configure_reader = true;
  heartbeat_interval = 1;
  heartbeat_api_url = codes "https://example.test/heartbeat";
  target_read_distance_m = none;
  edge_log_dir = none;
}

abbrev pub never : TestWorld → Bool
never w = false

-- A cloud that stores every event, and one that answers everything with an empty array.
abbrev pub storing_host : Host
storing_host = record test_host { post = λ url headers body timeout w. (stored_answer, w) }

abbrev bare_response : Response
bare_response = record { status_code = 200; text = []; json = ok (array nil) }

abbrev bare_host : Host
bare_host = record test_host { post = λ url headers body timeout w. (ok bare_response, w) }

abbrev pub platform_of : (h : Host) → (h.World → Bool) → Platform h
platform_of h requested = record {
  read_delay = 0;
  poll_interval = 1;
  agent_version = codes "1.0";
  shutdown_requested = requested;
}

abbrev platform : Platform test_host
platform = platform_of test_host never

abbrev begun_agent : AgentState × TestWorld
begun_agent = Agent.start test_host platform test_config two_events start

begun_agent-IsSound : IsSound begun_agent.0
begun_agent-IsSound =
    start-IsSound test_host platform test_config two_events start two_events-IsValid

abbrev shown_clock : TestWorld → ℕ
shown_clock w = w.clock

-- Shutdown is requested from the fourth tick on.
abbrev from_four : TestWorld → Bool
from_four w = leb 4 w.clock

test_host-IsSteady : IsSteady test_host from_four shown_clock
test_host-IsSteady = record {
  shows = λ w. refl;
  goes_on = λ w. omega arith;
  lasts = λ duration w. omega arith;
}

test_host-IsPrompt : IsPrompt test_host from_four shown_clock test_host-IsSteady 2 (omega arith) 1
test_host-IsPrompt = record {
  shown_soon = λ w. omega arith;
  woken_soon = λ duration w. omega arith;
}

interruptible_sleep-IsOverInTime_example :
    IsOverInTime test_host from_four shown_clock test_host-IsSteady 2
      (omega arith)
      (some 4)
      1
      20
      (interruptible_sleep test_host from_four 2 20 start)
interruptible_sleep-IsOverInTime_example =
    interruptible_sleep-IsOverInTime test_host from_four shown_clock test_host-IsSteady 2
      (omega arith) 1 test_host-IsPrompt (some 4) 20 start
      (omega arith, λ v later. ground (arith, later))

rounds-IsSound_example :
    IsSound (rounds test_host platform 3 test_config begun_agent.0 begun_agent.1).1
rounds-IsSound_example =
    rounds-IsSound test_host platform test_config 3 begun_agent.0 begun_agent.1 begun_agent-IsSound

abbrev pub seen_event : DetectedEvent
seen_event = record {
  event_type = enter;
  epc = codes "E201";
  edge_event_at = codes "now";
  edge_event_id = codes "c";
  reader_id = none;
}

pub storing_host-RaisesOsErrors : RaisesOsErrors storing_host
storing_host-RaisesOsErrors = record {
  of_iterdir = λ path w. tt;
  of_exists = λ path w. tt;
  of_resolve = λ path w. tt;
}

rounds_raise_not_example :
    (rounds storing_host
      (platform_of storing_host never)
      3
      test_config
      begun_agent.0
      begun_agent.1).0
    ≡ none
rounds_raise_not_example =
    rounds_raise_not storing_host (platform_of storing_host never) test_config (omega arith)
      storing_host-RaisesOsErrors (λ url headers body timeout w. inl (λ e. omega (arith, e))) 3
      begun_agent.0 begun_agent.1

bare_host-IsAnswerOf :
    (url : Text) (headers : List (Text × Text)) (body : List (Text × Json)) (timeout : ℕ)
    (w : TestWorld)
    → IsAnswerOf (array nil) (bare_host.post url headers body timeout w).0
bare_host-IsAnswerOf url headers body timeout w = record {
  response = bare_response;
  arrived = refl;
  accepted = refl;
  parsed = refl;
}

abbrev hasty_config : EdgeConfig ℕ
hasty_config = record test_config { heartbeat_interval = 0 }

abbrev bare_agent : AgentState × TestWorld
bare_agent = Agent.start bare_host (platform_of bare_host never) hasty_config two_events start

bare_agent-IsSound : IsSound bare_agent.0
bare_agent-IsSound =
    start-IsSound bare_host (platform_of bare_host never) hasty_config two_events start
      two_events-IsValid

bare_host-RaisesOsErrors : RaisesOsErrors bare_host
bare_host-RaisesOsErrors = record {
  of_iterdir = λ path w. tt;
  of_exists = λ path w. tt;
  of_resolve = λ path w. tt;
}

rounds-raise_example :
    (rounds bare_host (platform_of bare_host never) 3 hasty_config bare_agent.0 bare_agent.1).0
    ≡ some (attribute_error (array nil))
unfolding Agent.start
rounds-raise_example =
    rounds-raise bare_host (platform_of bare_host never) hasty_config (array nil) refl
      bare_host-RaisesOsErrors (omega arith) b'h' (codes "ttps://example.test/heartbeat") refl
      bare_host-IsAnswerOf 2 bare_agent.0 bare_agent.1 bare_agent-IsSound refl (λ v. omega arith)

run_agent-IsEnding_example :
    IsEnding
      (codes "IDT85")
      two_events
      (codes "a")
      (run_agent test_host platform 3 test_config two_events start)
run_agent-IsEnding_example =
    run_agent-IsEnding test_host platform test_config 3 two_events start (codes "a")
      two_events-IsValid
