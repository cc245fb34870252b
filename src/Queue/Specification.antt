-- ===== src/Queue/Specification.antt =====
-- An abstract queue without rows: a map from event identities to events and a counter
-- (src/mvd_edge/storage/queue.py).
use mathlib.Core.Option
use mvd_edge_agent.Prelude.{
  ℕ, ◌+◌, ◌≡◌, refl, sym, Option, none, some, List, [], ◌∷◌, arith, if◌then◌else◌, Text, text_eq,
}
use mvd_edge_agent.Dict.{is_some}
use mvd_edge_agent.Host.{Host}
use mvd_edge_agent.Payload.{EventPayload}
use mvd_edge_agent.Queue.{
  EventQueue, QueuedEvent, get, enqueue, mark_attempt, mark_delivered, update_payload,
}
use mvd_edge_agent.Queue.Lookup.{
  after_attempt, after_delivery, after_update, fresh_event, get-enqueue, get-mark_attempt,
  get-mark_delivered, get-update_payload,
}
use mvd_edge_agent.Queue.History.{
  Operation, enqueued, attempt_marked, delivery_marked, payload_updated, perform, perform_all,
}

-- The abstract queue.
pub record EventMap : Type 0 where
  pub sequence : ℕ
  pub event_at : Text → Option QueuedEvent

-- The event of one identity is changed, if it is there.
abbrev pub changed : Text → (QueuedEvent → QueuedEvent) → EventMap → EventMap
changed id change m = record {
  sequence = m.sequence;
  event_at = λ j. if text_eq id j then Option.map change (m.event_at j) else m.event_at j;
}

-- Every insertion draws the next number; a known identity keeps its event.
abbrev pub inserted : EventPayload → Text → EventMap → EventMap
inserted payload now m = record {
  sequence = m.sequence + 1;
  event_at = λ j.
      if is_some (m.event_at j)
      then m.event_at j
      else if text_eq payload.edge_event_id j
      then some (fresh_event (m.sequence + 1) payload now)
      else none;
}

-- The two hold the same.
pub record Agrees (queue : EventQueue) (m : EventMap) : Type 0 where
  pub same_sequence : queue.sequence ≡ m.sequence
  pub same_events : (j : Text) → get j queue ≡ m.event_at j

module _ (h : Host) where
  open h use {World, utc_timestamp}

  -- An operation on the abstract queue; the clock is read where the operation reads it.
  abbrev pub specified : Operation → EventMap → World → EventMap × World
  specified (enqueued payload) m w = let (now, w') = utc_timestamp w in (inserted payload now m, w')
  specified (attempt_marked id error) m w =
      let (now, w') = utc_timestamp w in (changed id (after_attempt now error) m, w')
  specified (delivery_marked id) m w =
      let (now, w') = utc_timestamp w in (changed id (after_delivery now) m, w')
  specified (payload_updated id payload) m w = (changed id (after_update payload) m, w)

  abbrev pub specified_all : List Operation → EventMap → World → EventMap × World
  specified_all [] m w = (m, w)
  specified_all (operation ∷ operations) m w =
      let (next, w') = specified operation m w in specified_all operations next w'

  sequence-enqueue :
      (payload : EventPayload) (queue : EventQueue) (w : World)
      → (enqueue h payload queue w).0.sequence ≡ queue.sequence + 1
  unfolding enqueue
  sequence-enqueue payload queue w = ground arith

  perform-Agrees :
      (operation : Operation) (queue : EventQueue) (m : EventMap) (w : World)
      → Agrees queue m
      → Agrees (perform h operation queue w).0 (specified operation m w).0
  unfolding perform mark_attempt mark_delivered update_payload
  perform-Agrees (enqueued payload) queue m w a = record {
    same_sequence = omega (arith, sequence-enqueue payload queue w, a.same_sequence);
    same_events =
        λ j. ground (arith, get-enqueue h queue w payload j, a.same_sequence, a.same_events j);
  }
  perform-Agrees (attempt_marked id error) queue m w a = record {
    same_sequence = a.same_sequence;
    same_events = λ j. ground (arith, get-mark_attempt h queue w id error j, a.same_events j);
  }
  perform-Agrees (delivery_marked id) queue m w a = record {
    same_sequence = a.same_sequence;
    same_events = λ j. ground (arith, get-mark_delivered h queue w id j, a.same_events j);
  }
  perform-Agrees (payload_updated id payload) queue m w a = record {
    same_sequence = a.same_sequence;
    same_events = λ j. ground (arith, get-update_payload id payload queue j, a.same_events j);
  }

  perform-world :
      (operation : Operation) (queue : EventQueue) (m : EventMap) (w : World)
      → (perform h operation queue w).1 ≡ (specified operation m w).1
  unfolding perform enqueue mark_attempt mark_delivered
  perform-world (enqueued payload) queue m w = ground arith
  perform-world (attempt_marked id error) queue m w = refl
  perform-world (delivery_marked id) queue m w = refl
  perform-world (payload_updated id payload) queue m w = refl

  Agrees-world :
      (operations : List Operation) (queue : EventQueue) (m : EventMap) (w v : World)
      → w ≡ v
      → Agrees (perform_all h operations queue w).0 (specified_all operations m w).0
      → Agrees (perform_all h operations queue w).0 (specified_all operations m v).0
  Agrees-world operations queue m w v same a = rw (sym same) a

  -- Any operations on the table do what they do to a map from identities to events with a counter:
  -- every insertion draws the next number, a new identity is stored under it as a pending event that
  -- was never attempted, and an event with a known identity is left alone; an attempt, a delivery and
  -- a new payload change the event of their identity and no other, and for an unknown one nothing.
  pub perform_all-Agrees :
      (operations : List Operation) (queue : EventQueue) (m : EventMap) (w : World)
      → Agrees queue m
      → Agrees (perform_all h operations queue w).0 (specified_all operations m w).0
  unfolding perform_all
  perform_all-Agrees [] queue m w a = a
  perform_all-Agrees (operation ∷ operations) queue m w a =
      let next = perform h operation queue w in
      let spec = specified operation m w in
      Agrees-world operations next.0 spec.0 next.1 spec.1 (perform-world operation queue m w)
        (perform_all-Agrees operations next.0 spec.0 next.1 (perform-Agrees operation queue m w a))
