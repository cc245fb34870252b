-- ===== src/Delivery/Content.antt =====
-- What a stored event says, and the deliveries (src/mvd_edge/app.py).
use mvd_edge_agent.Prelude.{
  ℕ, ◌≡◌, refl, ◌∙◌, Option, none, some, List, [], ◌∷◌, map, arith, keep, All, take-All, keep-All,
  All-zip, Text, text_eq_iff, text_eq_sym,
}
use mvd_edge_agent.Prelude.Sort.{sort_by, sort_by-All}
use mvd_edge_agent.Host.{Host}
use mvd_edge_agent.Payload.{EventPayload}
use mvd_edge_agent.Queue.{
  Row, QueuedEvent, EventQueue, is_pending, row_le, row_to_event, find_row, get, fetch_pending,
}
use mvd_edge_agent.Queue.Invariant.{IsValid}
use mvd_edge_agent.Cloud.{CloudTransport}
use mvd_edge_agent.Delivery.{DeliveryState, deliver, deliver_all, process_pending_deliveries}
use mvd_edge_agent.Delivery.One.{find_row-deliver}
use mvd_edge_agent.Delivery.Fetched.{Differs, HasDistinctRows, distinct_of_unique}

-- A payload without the time at which it was sent, which each attempt writes anew.
abbrev pub unsent : EventPayload → EventPayload
unsent payload = record payload { edge_send_at = [] }

abbrev pub content : Option QueuedEvent → Option EventPayload
content none = none
content (some e) = some (unsent e.payload)

-- The row that the table has for the event of a row is that row.
abbrev IsFound : List Row → Row → Type 0
IsFound rows row = find_row row.edge_event_id rows ≡ some row

rows-AreFound : (rows : List Row) → HasDistinctRows rows → All (IsFound rows) rows
unfolding find_row
rows-AreFound [] d = tt
rows-AreFound (row ∷ rows) d = (
  ground (arith, text_eq_iff row.edge_event_id row.edge_event_id),
  All-zip (IsFound rows) (Differs row.edge_event_id) (IsFound (row ∷ rows)) rows
      (λ r found differs. ground (arith, text_eq_sym row.edge_event_id r.edge_event_id))
      (rows-AreFound rows d.1) d.0,
)

-- The queue has an event with the same content.
abbrev Matches : EventQueue → QueuedEvent → Type 0
Matches queue e = content (get e.edge_event_id queue) ≡ some (unsent e.payload)

events-Match :
    (queue : EventQueue) (rows : List Row)
    → All (IsFound queue.rows) rows
    → All (Matches queue) (map row_to_event rows)
unfolding get
events-Match queue [] a = tt
events-Match queue (row ∷ rows) a = (ground (arith, a.0), events-Match queue rows a.1)

fetch_pending-Match :
    (limit : ℕ) (queue : EventQueue)
    → IsValid queue
    → All (Matches queue) (fetch_pending limit queue)
unfolding fetch_pending
fetch_pending-Match limit queue v = events-Match queue _ (
    take-All (IsFound queue.rows) limit (sort_by row_le (keep is_pending queue.rows)) (
      sort_by-All row_le (IsFound queue.rows) (keep is_pending queue.rows) (
        keep-All (IsFound queue.rows) is_pending queue.rows
          (rows-AreFound queue.rows (distinct_of_unique queue.rows v.unique)))))

module _ (h : Host) (transport : CloudTransport) where
  open h use {World}

  deliver-content :
      (event : QueuedEvent) (s : DeliveryState) (w : World)
      → Matches s.queue event
      → (id : Text)
      → content (get id (deliver h transport event s w).1.queue) ≡ content (get id s.queue)
  unfolding get
  deliver-content event s w same id =
      ground
        (arith, same, find_row-deliver h transport event s w id, text_eq_iff event.edge_event_id id)

  later-Match :
      (before after : EventQueue) (events : List QueuedEvent)
      → ((id : Text) → content (get id after) ≡ content (get id before))
      → All (Matches before) events
      → All (Matches after) events
  later-Match before after [] same a = tt
  later-Match before after (event ∷ events) same a =
      (same event.edge_event_id ∙ a.0, later-Match before after events same a.1)

  deliver_all-content :
      (events : List QueuedEvent) (s : DeliveryState) (w : World)
      → All (Matches s.queue) events
      → (id : Text)
      → content (get id (deliver_all h transport events s w).1.queue) ≡ content (get id s.queue)
  unfolding deliver_all
  deliver_all-content [] s w a id = refl
  deliver_all-content (event ∷ events) s w a id =
      let next = deliver h transport event s w in
      let same = deliver-content event s w a.0 in
      deliver_all-content events next.1 next.2 (later-Match s.queue next.1.queue events same a.1) id
      ∙ same id

  -- A round of deliveries changes nothing of what an event says but its send time.
  pub process-content :
      (batch_size : ℕ) (s : DeliveryState) (w : World)
      → IsValid s.queue
      → (id : Text)
      → content (get id (process_pending_deliveries h transport batch_size s w).1.queue)
        ≡ content (get id s.queue)
  unfolding process_pending_deliveries
  process-content batch_size s w v =
      deliver_all-content (fetch_pending batch_size s.queue) s w
        (fetch_pending-Match batch_size s.queue v)
