-- ===== src/Delivery/Round.antt =====
-- A round of deliveries, `process_pending_deliveries` of src/mvd_edge/app.py: whatever the cloud and
-- the clocks answer, no event is lost, and each fetched one is tried once.
use mathlib.Core.Option
use mvd_edge_agent.Prelude.{
  ℕ, ◌+◌, ◌≡◌, refl, ◌∙◌, Bool, true, false, Option, none, some, List, [], ◌∷◌, arith, All-zip,
  Text, text_eq, text_eq_iff, text_eq_sym, if◌then◌else◌, Bool-cases, inl, inr,
}
use mvd_edge_agent.Dict.{is_some}
use mvd_edge_agent.Host.{Host}
use mvd_edge_agent.Cloud.{CloudTransport}
use mvd_edge_agent.Queue.{Row, QueuedEvent, is_pending, find_row, fetch_pending, pending_count}
use mvd_edge_agent.Queue.Invariant.{IsValid}
use mvd_edge_agent.Delivery.{DeliveryState, deliver, deliver_all, process_pending_deliveries}
use mvd_edge_agent.Delivery.One.{
  find_row-deliver, pending_count-deliver, deliver-IsValid, final_row,
}
use mvd_edge_agent.Delivery.Fetched.{
  is_pending_row, is_waiting, IsAbsent, AreDistinct, AreWaiting, fetch_pending-AreDistinct,
  fetch_pending-AreWaiting,
}

waiting_row :
    (o : Option Row)
    → is_pending_row o ≡ true
    → (row : Row) × (o ≡ some row) × (is_pending row ≡ true)
waiting_row none h = cc
waiting_row (some row) h = (row, refl, h)

-- Whether an event is among those that were fetched.
abbrev pub is_fetched : Text → List QueuedEvent → Bool
is_fetched id [] = false
is_fetched id (e ∷ es) = if text_eq e.edge_event_id id then true else is_fetched id es

-- How often an event was tried.
abbrev pub attempts : Option Row → ℕ
attempts none = 0
attempts (some row) = row.attempt_count

-- What a round may change in a stored event: the number of its attempts grows by the given number;
-- it keeps its identities and its date of creation; a delivered one stays delivered.
pub record IsTried (times : ℕ) (before after : Option Row) : Type 0 where
  pub stored : is_some after ≡ is_some before
  pub counted : is_some before ≡ true → attempts after ≡ attempts before + times
  pub same_id : Option.map (λ (r : Row). r.id) after ≡ Option.map (λ (r : Row). r.id) before
  pub same_date :
      Option.map (λ (r : Row). r.created_at) after ≡ Option.map (λ (r : Row). r.created_at) before
  pub no_return : is_pending_row after ≡ true → is_pending_row before ≡ true

IsTried-none : (o : Option Row) → IsTried 0 o o
IsTried-none o = record {
  stored = refl;
  counted = λ k. omega arith;
  same_id = refl;
  same_date = refl;
  no_return = λ k. k;
}

IsTried-trans : {m n : ℕ} {a b c : Option Row} → IsTried m a b → IsTried n b c → IsTried (m + n) a c
IsTried-trans {m} {n} {a} {b} {c} p q = record {
  stored = q.stored ∙ p.stored;
  counted = λ k. let first = p.counted k in let second = q.counted (p.stored ∙ k) in omega arith;
  same_id = q.same_id ∙ p.same_id;
  same_date = q.same_date ∙ p.same_date;
  no_return = λ k. p.no_return (q.no_return k);
}

not_fetched : (id : Text) (es : List QueuedEvent) → IsAbsent id es → is_fetched id es ≡ false
not_fetched id [] a = refl
not_fetched id (e ∷ es) a = ground (arith, not_fetched id es a.1)

-- An event that stands once at the head of the batch is counted there.
once_fetched :
    (e : QueuedEvent) (es : List QueuedEvent) (id : Text)
    → IsAbsent e.edge_event_id es
    → (if is_fetched id (e ∷ es) then 1 else 0)
      ≡ (if text_eq e.edge_event_id id then 1 else 0) + (if is_fetched id es then 1 else 0)
once_fetched e es id absent = elim (Bool-cases (text_eq e.edge_event_id id)) [
  | inl same ↦
      let there = (text_eq_iff e.edge_event_id id).0 same in
      let gone = not_fetched e.edge_event_id es absent in ground arith
  | inr other ↦ ground arith
]

module _ (h : Host) (transport : CloudTransport) where
  open h use {World}

  still_waiting :
      (e : QueuedEvent) (es : List QueuedEvent) (s : DeliveryState) (w : World)
      → IsAbsent e.edge_event_id es
      → AreWaiting s.queue es
      → AreWaiting (deliver h transport e s w).1.queue es
  still_waiting e es s w absent waiting =
      All-zip (λ (x : QueuedEvent). text_eq x.edge_event_id e.edge_event_id ≡ false)
        (λ (x : QueuedEvent). is_waiting s.queue x.edge_event_id ≡ true)
        (λ (x : QueuedEvent). is_waiting (deliver h transport e s w).1.queue x.edge_event_id ≡ true)
        es
        (λ x other waits. ground (
          arith,
          find_row-deliver h transport e s w x.edge_event_id,
          text_eq_sym e.edge_event_id x.edge_event_id,
        ))
        absent waiting

  pending_count-deliver_all :
      (es : List QueuedEvent) (s : DeliveryState) (w : World)
      → IsValid s.queue
      → AreDistinct es
      → AreWaiting s.queue es
      → (deliver_all h transport es s w).0 + pending_count (deliver_all h transport es s w).1.queue
        ≡ pending_count s.queue
  unfolding deliver_all
  pending_count-deliver_all [] s w v d a = omega arith
  pending_count-deliver_all (e ∷ es) s w v d a =
      let next = deliver h transport e s w in
      let (row, found, waits) = waiting_row (find_row e.edge_event_id s.queue.rows) a.0 in
      omega (
        arith,
        pending_count-deliver h transport e s w v row found waits,
        pending_count-deliver_all es next.1 next.2 (deliver-IsValid h transport e s w v) d.1
            (still_waiting e es s w d.0 a.1),
      )

  deliver_all-IsValid :
      (es : List QueuedEvent) (s : DeliveryState) (w : World)
      → IsValid s.queue
      → IsValid (deliver_all h transport es s w).1.queue
  unfolding deliver_all
  deliver_all-IsValid [] s w v = v
  deliver_all-IsValid (e ∷ es) s w v =
      let next = deliver h transport e s w in
      deliver_all-IsValid es next.1 next.2 (deliver-IsValid h transport e s w v)

  -- From a valid queue, the number that a round reports as delivered and the number of events that
  -- are pending after it add up to the number that were pending before it.
  pub pending_count-process :
      (batch_size : ℕ) (s : DeliveryState) (w : World)
      → IsValid s.queue
      → (process_pending_deliveries h transport batch_size s w).0
          + pending_count (process_pending_deliveries h transport batch_size s w).1.queue
        ≡ pending_count s.queue
  unfolding process_pending_deliveries
  pending_count-process batch_size s w v =
      pending_count-deliver_all (fetch_pending batch_size s.queue) s w v
        (fetch_pending-AreDistinct batch_size s.queue v)
        (fetch_pending-AreWaiting batch_size s.queue v)

  pub process-IsValid :
      (batch_size : ℕ) (s : DeliveryState) (w : World)
      → IsValid s.queue
      → IsValid (process_pending_deliveries h transport batch_size s w).1.queue
  unfolding process_pending_deliveries
  process-IsValid batch_size s w = deliver_all-IsValid (fetch_pending batch_size s.queue) s w

  IsTried-final :
      (e : QueuedEvent) (s : DeliveryState) (w : World) (o : Option Row)
      → IsTried 1 o (Option.map (final_row h transport e s w) o)
  IsTried-final e s w none = record {
    stored = refl;
    counted = λ k. cc;
    same_id = refl;
    same_date = refl;
    no_return = λ k. k;
  }
  IsTried-final e s w (some row) = record {
    stored = refl;
    counted = λ k. ground arith;
    same_id = ground arith;
    same_date = ground arith;
    no_return = λ k. ground arith;
  }

  IsTried-deliver :
      (e : QueuedEvent) (s : DeliveryState) (w : World) (id : Text)
      → IsTried
          (if text_eq e.edge_event_id id then 1 else 0)
          (find_row id s.queue.rows)
          (find_row id (deliver h transport e s w).1.queue.rows)
  IsTried-deliver e s w id = elim (Bool-cases (text_eq e.edge_event_id id)) [
    | inl same ↦
        rw (find_row-deliver h transport e s w id, same)
          (IsTried-final e s w (find_row id s.queue.rows))
    | inr other ↦
        rw (find_row-deliver h transport e s w id, other) (IsTried-none (find_row id s.queue.rows))
  ]

  IsTried-deliver_all :
      (es : List QueuedEvent) (s : DeliveryState) (w : World) (id : Text)
      → AreDistinct es
      → IsTried
          (if is_fetched id es then 1 else 0)
          (find_row id s.queue.rows)
          (find_row id (deliver_all h transport es s w).1.queue.rows)
  unfolding deliver_all
  IsTried-deliver_all [] s w id d = IsTried-none (find_row id s.queue.rows)
  IsTried-deliver_all (e ∷ es) s w id d =
      let next = deliver h transport e s w in
      rw (once_fetched e es id d.0)
        (IsTried-trans (IsTried-deliver e s w id) (IsTried-deliver_all es next.1 next.2 id d.1))

  -- From a valid queue, a round tries each event that it fetched exactly once and no other: the attempts of a stored
  -- event grow by one if it was fetched and by none if it was not. Every stored event stays stored,
  -- under its identities and with its date of creation, no event appears, and a delivered event
  -- does not become pending again.
  pub IsTried-process :
      (batch_size : ℕ) (s : DeliveryState) (w : World) (id : Text)
      → IsValid s.queue
      → IsTried
          (if is_fetched id (fetch_pending batch_size s.queue) then 1 else 0)
          (find_row id s.queue.rows)
          (find_row id (process_pending_deliveries h transport batch_size s w).1.queue.rows)
  unfolding process_pending_deliveries
  IsTried-process batch_size s w id v =
      IsTried-deliver_all (fetch_pending batch_size s.queue) s w id
        (fetch_pending-AreDistinct batch_size s.queue v)
