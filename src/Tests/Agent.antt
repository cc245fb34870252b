-- ===== src/Tests/Agent.antt =====
-- A round of deliveries of two queued events.
use mvd_edge_agent.Prelude.{◌≡◌, ◌↔◌, ◌+◌, true, none, codes, if◌then◌else◌}
use mvd_edge_agent.Queue.{EventQueue, empty, enqueue, find_row, fetch_pending, pending_count}
use mvd_edge_agent.Queue.Invariant.{IsValid, empty-IsValid, enqueue-IsValid}
use mvd_edge_agent.Payload.{to_json}
use mvd_edge_agent.Cloud.{CloudTransport, headers_of, send_payload}
use mvd_edge_agent.Cloud.Answers.{IsStored, delivers, delivers-send_payload_iff}
use mvd_edge_agent.Delivery.{DeliveryState, process_pending_deliveries}
use mvd_edge_agent.Delivery.Round.{IsTried, is_fetched, IsTried-process, pending_count-process}
use mvd_edge_agent.Tests.{test_host, start}
use mvd_edge_agent.Tests.Queues.{payload_of}

abbrev pub transport : CloudTransport
transport = record {
  api_url = codes "https://example.test/events";
  api_key = none;
  heartbeat_url = none;
  timeout_seconds = 5;
}

abbrev one_event : EventQueue
one_event = (enqueue test_host (payload_of (codes "a")) empty start).0

abbrev pub two_events : EventQueue
two_events = (enqueue test_host (payload_of (codes "b")) one_event start).0

pub two_events-IsValid : IsValid two_events
two_events-IsValid =
    enqueue-IsValid test_host one_event start
      (enqueue-IsValid test_host empty start empty-IsValid (payload_of (codes "a")))
      (payload_of (codes "b"))

abbrev pub waiting : DeliveryState
waiting = record { queue = two_events; health = none }

IsTried-process_example :
    IsTried
      (if is_fetched (codes "a") (fetch_pending 10 two_events) then 1 else 0)
      (find_row (codes "a") two_events.rows)
      (find_row
        (codes "a")
        (process_pending_deliveries test_host transport 10 waiting start).1.queue.rows)
IsTried-process_example =
    IsTried-process test_host transport 10 waiting start (codes "a") two_events-IsValid

pending_count-process_example :
    (process_pending_deliveries test_host transport 10 waiting start).0
      + pending_count (process_pending_deliveries test_host transport 10 waiting start).1.queue
    ≡ pending_count two_events
pending_count-process_example =
    pending_count-process test_host transport 10 waiting start two_events-IsValid

delivers-send_payload_iff_example :
    (delivers (send_payload test_host transport (payload_of (codes "a")) start).0 ≡ true)
    ↔ IsStored
        (test_host.post transport.api_url
          (headers_of none)
          (to_json (payload_of (codes "a")))
          5
          start).0
delivers-send_payload_iff_example =
    delivers-send_payload_iff test_host transport (payload_of (codes "a")) start
