-- ===== src/Delivery/Drained.antt =====
-- Rounds of deliveries one after the other, to a cloud that stores what it is sent (src/mvd_edge/app.py).
use Prim.Native.Nat.{min}
use mvd_edge_agent.Prelude.{
  ℕ, zero, suc, ◌-◌, ◌*◌, ◌≡◌, refl, true, List, [], ◌∷◌, length, map, arith, Text,
}
use mvd_edge_agent.Outcome.{Outcome, ok, raised}
use mvd_edge_agent.Json.{Json}
use mvd_edge_agent.Host.{Host}
use mvd_edge_agent.Payload.{to_json}
use mvd_edge_agent.Queue.{QueuedEvent, Row, fetch_pending, pending_count, row_to_event}
use mvd_edge_agent.Queue.Pending.{fetch_pending_lem}
use mvd_edge_agent.Queue.Invariant.{IsValid}
use mvd_edge_agent.Cloud.{CloudTransport, DeliveryResult, send_payload, headers_of}
use mvd_edge_agent.Cloud.Answers.{IsStored, delivers, delivers-send_payload_iff}
use mvd_edge_agent.Delivery.{
  DeliveryState, settled, deliver, deliver_all, process_pending_deliveries,
}
use mvd_edge_agent.Delivery.Round.{pending_count-process, process-IsValid}

length-map_event : (rows : List Row) → length (map row_to_event rows) ≡ length rows
length-map_event [] = refl
length-map_event (row ∷ rows) = omega (arith, length-map_event rows)

module _ (h : Host) (transport : CloudTransport) where
  open h use {World, post, timestamp}

  -- Whatever is posted, the answer says that it is stored.
  abbrev pub AlwaysStores : Type 0
  AlwaysStores =
      (url : Text) (headers : List (Text × Text)) (body : List (Text × Json)) (timeout : ℕ)
      (w : World)
      → IsStored (post url headers body timeout w).0

  -- Rounds of deliveries one after the other, each on what the one before left.
  unfoldable pub deliver_rounds : ℕ → ℕ → DeliveryState → World → DeliveryState × World
  deliver_rounds zero batch_size s w = (s, w)
  deliver_rounds (suc n) batch_size s w =
      let (count, s', w') = process_pending_deliveries h transport batch_size s w in
      deliver_rounds n batch_size s' w'

  settled-success :
      (outcome : Outcome DeliveryResult)
      → delivers outcome ≡ true
      → (settled outcome).success ≡ true
  settled-success (ok result) there = there
  settled-success (raised e) there = cc

  module _ (stores : AlwaysStores) where
    deliver-success :
        (e : QueuedEvent) (s : DeliveryState) (w : World) → (deliver h transport e s w).0 ≡ true
    unfolding deliver
    deliver-success e s w =
        let (now, w1) = timestamp w in
        let payload = record e.payload { edge_send_at = now } in
        settled-success (send_payload h transport payload w1).0 (
          (delivers-send_payload_iff h transport payload w1).1 (
            stores transport.api_url (headers_of transport.api_key) (to_json payload)
              transport.timeout_seconds w1))

    deliver_all-count :
        (es : List QueuedEvent) (s : DeliveryState) (w : World)
        → (deliver_all h transport es s w).0 ≡ length es
    unfolding deliver_all
    deliver_all-count [] s w = refl
    deliver_all-count (e ∷ es) s w =
        let next = deliver h transport e s w in
        ground (arith, deliver-success e s w, deliver_all-count es next.1 next.2)

    pub process-count :
        (batch_size : ℕ) (s : DeliveryState) (w : World)
        → (process_pending_deliveries h transport batch_size s w).0
          ≡ min batch_size (pending_count s.queue)
    unfolding process_pending_deliveries
    process-count batch_size s w =
        let f = fetch_pending_lem batch_size s.queue in
        ground (
          arith,
          deliver_all-count (fetch_pending batch_size s.queue) s w,
          f.fetched,
          length-map_event f.chosen,
          f.as_many,
        )

    -- From a valid queue and with a cloud that stores whatever it is sent, after n rounds the events
    -- pending are n batches fewer than before, and none are where n batches hold them all.
    pub pending_count-deliver_rounds :
        (n batch_size : ℕ) (s : DeliveryState) (w : World)
        → IsValid s.queue
        → pending_count (deliver_rounds n batch_size s w).0.queue
          ≡ pending_count s.queue - n * batch_size
    unfolding deliver_rounds
    pending_count-deliver_rounds zero batch_size s w v = omega arith
    pending_count-deliver_rounds (suc n) batch_size s w v =
        let next = process_pending_deliveries h transport batch_size s w in
        ground (
          arith,
          process-count batch_size s w,
          pending_count-process h transport batch_size s w v,
          pending_count-deliver_rounds n batch_size next.1 next.2
              (process-IsValid h transport batch_size s w v),
        )
