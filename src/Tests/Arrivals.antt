-- ===== src/Tests/Arrivals.antt =====
-- Rounds of an agent that is READY.
use mvd_edge_agent.Prelude.{◌≡◌, refl, true, some, [], ◌∷◌, codes, arith, hex, upper, text_eq, All}
use mvd_edge_agent.Idt85.Device.{Idt85Reader}
use mvd_edge_agent.Idt85.Inventory.{
  classify_inventory_response, is_no_tag_inventory_response, read_tags, epc_text,
}
use mvd_edge_agent.Reader.{inventory, send_command, read_rest}
use mvd_edge_agent.Presence as Presence
use mvd_edge_agent.Presence.{
  DetectedEvent, enter, mark_visible, collect_expired, update, observation_time, detected_if,
  detected, starts_with, tag_key,
}
use mvd_edge_agent.Dict.{member, lookup, put}
use mvd_edge_agent.Scan.{read_inventory_events, scanned, tell_inventory}
use mvd_edge_agent.Health as Health
use mvd_edge_agent.Health.{ready, mark_inventory_success}
use mvd_edge_agent.Queue.{get, find_row, enqueue, pending_count}
use mvd_edge_agent.Agent.{rounds, round, after_scan, transport_of}
use mvd_edge_agent.Agent.Delivered.{IsDelivered, after_scan-AreDelivered}
use mvd_edge_agent.Tests.Drained.{storing_host-AlwaysStores}
use mvd_edge_agent.Agent.Link.{AgentState}
use mvd_edge_agent.Agent.Scanning.{scan_with}
use mvd_edge_agent.Agent.Invariant.{IsSound}
use mvd_edge_agent.Agent.Content.{content-rounds}
use mvd_edge_agent.Delivery.Content.{content, unsent}
use mvd_edge_agent.Tests.Queues.{payload_of}
use mvd_edge_agent.Agent.Recording.{IsRecorded, after_scan-AreRecorded}
use mvd_edge_agent.Agent.Arrivals.{round-RecordsArrival}
use mvd_edge_agent.Tests.{test_host, start}
use mvd_edge_agent.Tests.Agent.{two_events, two_events-IsValid}
use mvd_edge_agent.Tests.Loop.{never, platform_of, test_config, seen_event, storing_host}
use mvd_edge_agent.Tests.Link.{test_reader}

abbrev ready_reader : Idt85Reader
ready_reader = record test_reader { is_open = true }

abbrev ready_agent : AgentState
ready_agent = record {
  reader = some ready_reader;
  presence = Presence.create 5;
  queue = two_events;
  health = record (Health.create ready) { reader_connected = true };
  reader_state = ready;
  next_reader_attempt = 0;
  last_delivery_attempt = 0;
  last_heartbeat_attempt = 0;
}

ready_agent-IsSound : IsSound ready_agent
ready_agent-IsSound = record {
  queue_valid = two_events-IsValid;
  keys_unique = tt;
  coherent = record {
    healthy_connected = λ e. refl;
    healthy_responding = λ e. cc;
    healthy_count = λ e. refl;
    healthy_error = λ e. refl;
    responding_healthy = λ e. cc;
    reconnecting_cut = λ e. cc;
  };
  port_held = refl;
  reported = refl;
  state_reported = refl;
}

content-rounds_example :
    content (
      get
        (codes "a")
        (rounds test_host (platform_of test_host never) 3 test_config ready_agent start).1.queue)
    ≡ some (unsent (payload_of (codes "a")))
unfolding get find_row enqueue text_eq
content-rounds_example =
    content-rounds test_host (platform_of test_host never) test_config (codes "a") 3 ready_agent
      start ready_agent-IsSound (unsent (payload_of (codes "a"))) refl

after_scan-AreRecorded_example :
    All
      (IsRecorded test_config
        (after_scan test_host
          (platform_of test_host never)
          test_config
          0
          (seen_event ∷ [])
          ready_agent
          start).1.queue)
      (seen_event ∷ [])
unfolding get find_row enqueue text_eq
after_scan-AreRecorded_example =
    after_scan-AreRecorded test_host (platform_of test_host never) test_config 0 (seen_event ∷ [])
      ready_agent start ready_agent-IsSound (refl, tt, tt)

round-RecordsArrival_example :
    (event : DetectedEvent) × (event.epc ≡ codes "E201")
    × (event.event_type ≡ enter)
    × IsRecorded test_config
        (round test_host (platform_of test_host never) test_config ready_agent start).1.queue
        event
unfolding get find_row enqueue text_eq member lookup inventory send_command read_rest
    classify_inventory_response is_no_tag_inventory_response read_tags epc_text hex upper scan_with
    read_inventory_events scanned tell_inventory mark_inventory_success update observation_time
    mark_visible collect_expired detected_if detected starts_with put tag_key
round-RecordsArrival_example =
    round-RecordsArrival test_host (platform_of test_host never) test_config (codes "E201" ∷ [])
      (codes "E201") (omega arith, (omega arith, tt)) refl ready_reader ready_agent start
      ready_agent-IsSound refl refl refl refl (refl, tt, tt)

after_scan-AreDelivered_example :
    (pending_count
        (after_scan storing_host
          (platform_of storing_host never)
          test_config
          0
          (seen_event ∷ [])
          ready_agent
          start).1.queue
      ≡ 0)
    × All
        (IsDelivered test_config
          (after_scan storing_host
            (platform_of storing_host never)
            test_config
            0
            (seen_event ∷ [])
            ready_agent
            start).1.queue)
        (seen_event ∷ [])
unfolding get find_row enqueue text_eq pending_count
after_scan-AreDelivered_example =
    after_scan-AreDelivered storing_host (platform_of storing_host never) test_config
      (storing_host-AlwaysStores (transport_of test_config)) 0 seen_event [] ready_agent start
      ready_agent-IsSound (refl, tt, tt) (omega arith)
