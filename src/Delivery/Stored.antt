-- ===== src/Delivery/Stored.antt =====
-- The stored events and the deliveries (src/mvd_edge/app.py).
use mvd_edge_agent.Prelude.{ℕ, Bool, true, false, List, [], ◌∷◌, Text}
use mvd_edge_agent.Host.{Host}
use mvd_edge_agent.Queue.{EventQueue, QueuedEvent, get, update_payload, mark_attempt, fetch_pending}
use mvd_edge_agent.Queue.History.{
  IsKept, IsKept-trans, IsKept-refl, perform, perform-IsKept, attempt_marked, delivery_marked,
  payload_updated,
}
use mvd_edge_agent.Cloud.{CloudTransport, send_payload}
use mvd_edge_agent.Delivery.{
  DeliveryState, settled, attempt_error, mark_if_delivered, deliver, deliver_all,
  process_pending_deliveries,
}

module _ (h : Host) (id : Text) where
  open h use {World, timestamp}

  mark_if_delivered-IsKept :
      (success : Bool) (other : Text) (queue : EventQueue) (w : World)
      → IsKept (get id queue) (get id (mark_if_delivered h success other queue w).0)
  unfolding mark_if_delivered perform
  mark_if_delivered-IsKept true other queue w = perform-IsKept h (delivery_marked other) queue w id
  mark_if_delivered-IsKept false other queue w = IsKept-refl h (get id queue)

  deliver-IsKept :
      (transport : CloudTransport) (event : QueuedEvent) (s : DeliveryState) (w : World)
      → IsKept (get id s.queue) (get id (deliver h transport event s w).1.queue)
  unfolding deliver perform
  deliver-IsKept transport event s w =
      let (now, w1) = timestamp w in
      let payload = record event.payload { edge_send_at = now } in
      let stored = update_payload event.edge_event_id payload s.queue in
      let (answer, w2) = send_payload h transport payload w1 in
      let result = settled answer in
      let (tried, w3) = mark_attempt h event.edge_event_id (attempt_error result) stored w2 in
      IsKept-trans (get id s.queue) (get id stored) _
        (perform-IsKept h (payload_updated event.edge_event_id payload) s.queue w1 id)
        (IsKept-trans (get id stored) (get id tried) _
          (perform-IsKept h (attempt_marked event.edge_event_id (attempt_error result)) stored w2
            id)
          (mark_if_delivered-IsKept result.success event.edge_event_id tried w3))

  deliver_all-IsKept :
      (transport : CloudTransport) (events : List QueuedEvent) (s : DeliveryState) (w : World)
      → IsKept (get id s.queue) (get id (deliver_all h transport events s w).1.queue)
  unfolding deliver_all
  deliver_all-IsKept transport [] s w = IsKept-refl h (get id s.queue)
  deliver_all-IsKept transport (event ∷ events) s w =
      let next = deliver h transport event s w in
      IsKept-trans (get id s.queue) (get id next.1.queue) _ (deliver-IsKept transport event s w)
        (deliver_all-IsKept transport events next.1 next.2)

  pub process-IsKept :
      (transport : CloudTransport) (batch_size : ℕ) (s : DeliveryState) (w : World)
      → IsKept
          (get id s.queue)
          (get id (process_pending_deliveries h transport batch_size s w).1.queue)
  unfolding process_pending_deliveries
  process-IsKept transport batch_size s w =
      deliver_all-IsKept transport (fetch_pending batch_size s.queue) s w
