-- ===== src/Queue/History.antt =====
-- Any sequence of the queue's operations, from the empty table of a new file
-- (src/mvd_edge/storage/queue.py).
use mvd_edge_agent.Prelude.{◌≤◌, ◌≡◌, Option, none, some, List, [], ◌∷◌, arith, Text}
use mvd_edge_agent.Host.{Host}
use mvd_edge_agent.Payload.{EventPayload}
use mvd_edge_agent.Queue.{
  EventQueue, QueuedEvent, delivered, empty, get, enqueue, mark_attempt, mark_delivered,
  update_payload,
}
use mvd_edge_agent.Queue.Lookup.{
  get-enqueue, get-mark_attempt, get-mark_delivered, get-update_payload,
}
use mvd_edge_agent.Queue.Invariant.{
  IsValid, empty-IsValid, enqueue-IsValid, mark_attempt-IsValid, mark_delivered-IsValid,
  update_payload-IsValid,
}

-- A call of one of the methods that write.
pub data Operation : Type 0 where
  enqueued : EventPayload → Operation
  attempt_marked : Text → Option Text → Operation
  delivery_marked : Text → Operation
  payload_updated : Text → EventPayload → Operation

-- What stays of a stored event: it is stored, under its row and with its date of creation; attempts
-- are not taken back, and neither is a delivery.
abbrev pub IsKept : Option QueuedEvent → Option QueuedEvent → Type 0
IsKept none after = Unit
IsKept (some e) none = ⊥
IsKept (some e) (some e') =
    (e'.id ≡ e.id)
    × (e'.created_at ≡ e.created_at)
    × (e.attempt_count ≤ e'.attempt_count)
    × (e.status ≡ delivered → e'.status ≡ delivered)

pub IsKept-trans : (a b c : Option QueuedEvent) → IsKept a b → IsKept b c → IsKept a c
IsKept-trans none b c p q = tt
IsKept-trans (some a) none c p q = elim p [ ]
IsKept-trans (some a) (some b) none p q = q
IsKept-trans (some a) (some b) (some c) p q = ground (arith, p, q)

module _ (h : Host) where
  open h use {World}

  unfoldable pub perform : Operation → EventQueue → World → EventQueue × World
  perform (enqueued payload) queue w = enqueue h payload queue w
  perform (attempt_marked id error) queue w = mark_attempt h id error queue w
  perform (delivery_marked id) queue w = mark_delivered h id queue w
  perform (payload_updated id payload) queue w = (update_payload id payload queue, w)

  unfoldable pub perform_all : List Operation → EventQueue → World → EventQueue × World
  unfolding perform
  perform_all [] queue w = (queue, w)
  perform_all (operation ∷ operations) queue w =
      let (next, w') = perform operation queue w in perform_all operations next w'

  perform-IsValid :
      (operation : Operation) (queue : EventQueue) (w : World)
      → IsValid queue
      → IsValid (perform operation queue w).0
  unfolding perform
  perform-IsValid (enqueued payload) queue w v = enqueue-IsValid h queue w v payload
  perform-IsValid (attempt_marked id error) queue w v = mark_attempt-IsValid h queue w v id error
  perform-IsValid (delivery_marked id) queue w v = mark_delivered-IsValid h queue w v id
  perform-IsValid (payload_updated id payload) queue w v = update_payload-IsValid id payload queue v

  perform_all-IsValid_from :
      (operations : List Operation) (queue : EventQueue) (w : World)
      → IsValid queue
      → IsValid (perform_all operations queue w).0
  unfolding perform_all
  perform_all-IsValid_from [] queue w v = v
  perform_all-IsValid_from (operation ∷ operations) queue w v =
      perform_all-IsValid_from operations _ _ (perform-IsValid operation queue w v)

  -- After any operations on an empty table, no two rows have the same event identity, the row
  -- identities climb in the order of insertion, and exactly the delivered rows have a delivery date.
  pub perform_all-IsValid :
      (operations : List Operation) (w : World) → IsValid (perform_all operations empty w).0
  perform_all-IsValid operations w = perform_all-IsValid_from operations empty w empty-IsValid

  pub perform-IsKept :
      (operation : Operation) (queue : EventQueue) (w : World) (id : Text)
      → IsKept (get id queue) (get id (perform operation queue w).0)
  unfolding perform
  perform-IsKept (enqueued payload) queue w id = ground (arith, get-enqueue h queue w payload id)
  perform-IsKept (attempt_marked other error) queue w id =
      ground (arith, get-mark_attempt h queue w other error id)
  perform-IsKept (delivery_marked other) queue w id =
      ground (arith, get-mark_delivered h queue w other id)
  perform-IsKept (payload_updated other payload) queue w id =
      ground (arith, get-update_payload other payload queue id)

  pub IsKept-refl : (a : Option QueuedEvent) → IsKept a a
  IsKept-refl none = tt
  IsKept-refl (some e) = ground arith

  -- Whatever is called, in whatever order, a stored event stays stored, under its row and with its
  -- date of creation, its count of attempts never falls, and once delivered it stays delivered.
  pub perform_all-IsKept :
      (operations : List Operation) (queue : EventQueue) (w : World) (id : Text)
      → IsKept (get id queue) (get id (perform_all operations queue w).0)
  unfolding perform_all
  perform_all-IsKept [] queue w id = IsKept-refl (get id queue)
  perform_all-IsKept (operation ∷ operations) queue w id =
      let next = perform operation queue w in
      IsKept-trans (get id queue) (get id next.0) _ (perform-IsKept operation queue w id)
        (perform_all-IsKept operations next.0 next.1 id)
