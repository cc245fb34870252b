-- ===== src/Tests/Queues.antt =====
-- A queue with two events, and health reports.
use mvd_edge_agent.Prelude.{refl, List, [], ◌∷◌, none, some, Text, codes, text_eq, ◌≡◌}
use mvd_edge_agent.Payload.{EventPayload}
use mvd_edge_agent.Presence.{enter}
use mvd_edge_agent.Queue.{EventQueue, empty, get, find_row, enqueue}
use mvd_edge_agent.Queue.Pending.{IsOldestFirst, fetch_pending_lem}
use mvd_edge_agent.Queue.Invariant.{IsValid}
use mvd_edge_agent.Queue.Specification.{Agrees, specified_all, perform_all-Agrees}
use mvd_edge_agent.Queue.History.{
  Operation, enqueued, attempt_marked, delivery_marked, payload_updated, perform_all,
  perform_all-IsValid,
}
use mvd_edge_agent.Health.{ready, create}
use mvd_edge_agent.Health.Coherence.{
  inventory_success, inventory_no_response, is_offline, reconnect_attempt, is_ready, reports,
  IsCoherent, reports-IsCoherent,
}
use mvd_edge_agent.Tests.{test_host, start}

abbrev pub payload_of : Text → EventPayload
payload_of id = record {
  edge_event_id = id;
  event = enter;
  epc = codes "E201";
  reader_id = codes "door";
  customer_id = none;
  site_id = none;
  device_id = none;
  application_profile = none;
  location_id = none;
  zone_id = none;
  timestamp = codes "0";
  edge_event_at = codes "0";
  edge_send_at = codes "0";
}

abbrev first : Text
first = codes "a"

abbrev second : Text
second = codes "b"

abbrev operations : List Operation
operations =
    enqueued (payload_of first)
    ∷ enqueued (payload_of second)
    ∷ attempt_marked first (some (codes "timed out"))
    ∷ delivery_marked first
    ∷ enqueued (payload_of first)
    ∷ payload_updated second (payload_of second)
    ∷ []

abbrev two_events : EventQueue
two_events =
    (enqueue test_host (payload_of second) (enqueue test_host (payload_of first) empty start).0
      start).0

perform_all-IsValid_example : IsValid (perform_all test_host operations empty start).0
perform_all-IsValid_example = perform_all-IsValid test_host operations start

fetch_pending_lem_example : IsOldestFirst 1 two_events
fetch_pending_lem_example = fetch_pending_lem 1 two_events

reports-IsCoherent_example :
    IsCoherent
      (reports test_host
        (is_ready
          ∷ inventory_success (codes "E201" ∷ [])
          ∷ inventory_no_response
          ∷ is_offline (codes "unplugged")
          ∷ reconnect_attempt
          ∷ [])
        (create ready)
        start).0
reports-IsCoherent_example =
    reports-IsCoherent test_host
      (is_ready
        ∷ inventory_success (codes "E201" ∷ [])
        ∷ inventory_no_response
        ∷ is_offline (codes "unplugged")
        ∷ reconnect_attempt
        ∷ [])
      ready start

perform_all-Agrees_example :
    Agrees
      (perform_all test_host operations empty start).0
      (specified_all test_host operations (record { sequence = 0; event_at = λ id. none }) start).0
unfolding get find_row
perform_all-Agrees_example =
    perform_all-Agrees test_host operations empty (record { sequence = 0; event_at = λ id. none })
      start (record { same_sequence = refl; same_events = λ id. refl })

-- An ignored insertion uses a number up.
enqueue_ignored :
    let again = (enqueue test_host (payload_of first) two_events start).0 in
    (again.sequence ≡ 3) × (again.rows ≡ two_events.rows)
unfolding enqueue find_row text_eq
enqueue_ignored = (refl, refl)
