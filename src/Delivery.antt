-- ===== src/Delivery.antt =====
-- The delivery of queued events (src/mvd_edge/app.py).
pub mod Reports
pub mod Stored
pub mod One
pub mod Fetched
pub mod Round
pub mod Drained
pub mod Content
use mvd_edge_agent.Prelude.{
  ℕ, ◌+◌, Bool, true, false, Option, none, some, List, [], ◌∷◌, if◌then◌else◌, Text, codes,
}
use mvd_edge_agent.Outcome.{Outcome, ok, raised, Error, message}
use mvd_edge_agent.Host.{Host}
use mvd_edge_agent.Payload.{EventPayload}
use mvd_edge_agent.Presence.{DetectedEvent}
use mvd_edge_agent.Queue.{
  QueuedEvent, EventQueue, fetch_pending, update_payload, mark_attempt, mark_delivered,
  pending_count,
}
use mvd_edge_agent.Health.{HealthState, mark_cloud_delivery, mark_error}
use mvd_edge_agent.Cloud.{DeliveryResult, CloudTransport, failure, send_payload}

-- `event.reader_id or reader_id`
abbrev pub or_reader : Option Text → Text → Text
or_reader none reader_id = reader_id
or_reader (some []) reader_id = reader_id
or_reader (some (c ∷ t)) reader_id = c ∷ t

-- The names that `build_event_payload` takes from the configuration.
pub record Origin : Type 0 where
  pub reader_id : Text
  pub customer_id : Option Text
  pub site_id : Option Text
  pub device_id : Option Text
  pub application_profile : Option Text
  pub location_id : Option Text
  pub zone_id : Option Text

-- `except Exception`: a raised error becomes a failed delivery with its text.
abbrev pub settled : Outcome DeliveryResult → DeliveryResult
settled (ok result) = result
settled (raised e) = failure (message e)

-- What a delivery works on.
pub record DeliveryState : Type 0 where
  pub queue : EventQueue
  pub health : Option HealthState

-- The error that is recorded with an attempt.
abbrev pub attempt_error : DeliveryResult → Option Text
attempt_error result = if result.success then none else result.error

module _ (h : Host) where
  open h use {World, timestamp}

  unfoldable pub build_event_payload : DetectedEvent → Origin → World → EventPayload × World
  build_event_payload event origin w =
      let (now, w') = timestamp w in
      (
        record {
          edge_event_id = event.edge_event_id;
          event = event.event_type;
          epc = event.epc;
          reader_id = or_reader event.reader_id origin.reader_id;
          customer_id = origin.customer_id;
          site_id = origin.site_id;
          device_id = origin.device_id;
          application_profile = origin.application_profile;
          location_id = origin.location_id;
          zone_id = origin.zone_id;
          timestamp = event.edge_event_at;
          edge_event_at = event.edge_event_at;
          edge_send_at = now;
        },
        w',
      )

  -- `if health_state:` with the report of a success or of a failure.
  pub tell_health : Bool → Option HealthState → World → Option HealthState × World
  tell_health success none w = (none, w)
  tell_health true (some s) w = let (s', w') = mark_cloud_delivery h s w in (some s', w')
  tell_health false (some s) w =
      let (s', w') = mark_error h (codes "CLOUD_DELIVERY_FAILED") s w in (some s', w')

  pub mark_if_delivered : Bool → Text → EventQueue → World → EventQueue × World
  mark_if_delivered true id queue w = mark_delivered h id queue w
  mark_if_delivered false id queue w = (queue, w)

  -- The body of the loop, for one fetched event: the state after it, and whether it was delivered.
  pub deliver : CloudTransport → QueuedEvent → DeliveryState → World → Bool × DeliveryState × World
  unfolding tell_health mark_if_delivered
  deliver transport event s w =
      let (now, w1) = timestamp w in
      let payload = record event.payload { edge_send_at = now } in
      let stored = update_payload event.edge_event_id payload s.queue in
      let (answer, w2) = send_payload h transport payload w1 in
      let result = settled answer in
      let (tried, w3) = mark_attempt h event.edge_event_id (attempt_error result) stored w2 in
      let (queue, w4) = mark_if_delivered result.success event.edge_event_id tried w3 in
      let (health, w5) = tell_health result.success s.health w4 in
      (result.success, record { queue = queue; health = health }, w5)

  -- The loop over the fetched events, with the number delivered.
  pub deliver_all :
      CloudTransport → List QueuedEvent → DeliveryState → World → ℕ × DeliveryState × World
  unfolding deliver
  deliver_all transport [] s w = (0, s, w)
  deliver_all transport (event ∷ events) s w =
      let (success, s', w') = deliver transport event s w in
      let (count, s'', w'') = deliver_all transport events s' w' in
      ((if success then 1 else 0) + count, s'', w'')

  unfoldable pub process_pending_deliveries :
      CloudTransport → ℕ → DeliveryState → World → ℕ × DeliveryState × World
  unfolding deliver_all
  process_pending_deliveries transport batch_size s w =
      deliver_all transport (fetch_pending batch_size s.queue) s w

  -- `attempt_immediate_delivery`: the time at its end is returned.
  unfoldable pub attempt_immediate_delivery :
      CloudTransport → ℕ → DeliveryState → World → ℕ × DeliveryState × World
  attempt_immediate_delivery transport batch_size s w =
      let (count, s', w') = process_pending_deliveries transport batch_size s w in
      let (now, w'') = h.time w' in (now, s', w'')
