-- ===== src/Queue/Lookup.antt =====
-- The queue as a map from event identities to events: each operation by what `get` returns after it.
use mathlib.Core.Option
use mvd_edge_agent.Prelude.{
  ℕ, ◌+◌, ◌≡◌, refl, Option, none, some, List, [], ◌∷◌, ◌++◌, arith, if◌then◌else◌, Text, text_eq,
  text_eq_iff,
}
use mvd_edge_agent.Dict.{is_some}
use mvd_edge_agent.Host.{Host}
use mvd_edge_agent.Payload.{EventPayload}
use mvd_edge_agent.Queue.{
  Row, QueuedEvent, EventQueue, pending, delivered, recorded_error, find_row, update_where,
  row_to_event, new_row, attempted, completed, get, update_payload, enqueue, mark_attempt,
  mark_delivered,
}

-- A change of a row that leaves its event's identity alone.
abbrev pub KeepsEvent : (Row → Row) → Type 0
KeepsEvent change = (row : Row) → (change row).edge_event_id ≡ row.edge_event_id

pub find_row-update_where :
    (id : Text) (change : Row → Row) (j : Text) (rows : List Row)
    → KeepsEvent change
    → find_row j (update_where id change rows)
      ≡ (if text_eq id j then Option.map change (find_row j rows) else find_row j rows)
unfolding find_row update_where
find_row-update_where id change j [] k = ground arith
find_row-update_where id change j (row ∷ rows) k = ground (
  arith,
  k row,
  text_eq_iff row.edge_event_id id,
  text_eq_iff row.edge_event_id j,
  text_eq_iff id j,
  find_row-update_where id change j rows k,
)

pub find_row-append :
    (j : Text) (rows : List Row) (last : Row)
    → find_row j (rows ++ last ∷ []) ≡ (
        if is_some (find_row j rows)
        then find_row j rows
        else if text_eq last.edge_event_id j
        then some last
        else none)
unfolding find_row
find_row-append j [] last = ground arith
find_row-append j (row ∷ rows) last = ground (arith, find_row-append j rows last)

-- The event that `get` makes of a row.
abbrev event_of : Option Row → Option QueuedEvent
event_of none = none
event_of (some row) = some (row_to_event row)

get-find_row : (id : Text) (queue : EventQueue) → get id queue ≡ event_of (find_row id queue.rows)
unfolding get
get-find_row id queue = ground arith

-- What each operation makes of a stored event.
abbrev pub after_attempt : Text → Option Text → QueuedEvent → QueuedEvent
after_attempt now error e = record e {
  attempt_count = e.attempt_count + 1;
  last_attempt_at = some now;
  last_error = recorded_error error;
}

abbrev pub after_delivery : Text → QueuedEvent → QueuedEvent
after_delivery now e = record e { status = delivered; delivered_at = some now; last_error = none }

abbrev pub after_update : EventPayload → QueuedEvent → QueuedEvent
after_update payload e = record e { payload = payload }

-- The event of a fresh payload: pending, and never attempted.
abbrev pub fresh_event : ℕ → EventPayload → Text → QueuedEvent
fresh_event id payload now = record {
  id = id;
  edge_event_id = payload.edge_event_id;
  payload = payload;
  created_at = now;
  attempt_count = 0;
  last_attempt_at = none;
  delivered_at = none;
  status = pending;
  last_error = none;
}

-- Storing a payload anew changes what is returned for its identity in nothing but the payload, if
-- that identity is stored, and nothing for any other identity.
pub get-update_payload :
    (id : Text) (payload : EventPayload) (queue : EventQueue) (j : Text)
    → get j (update_payload id payload queue)
      ≡ (if text_eq id j then Option.map (after_update payload) (get j queue) else get j queue)
unfolding get update_payload
get-update_payload id payload queue j = ground (
  arith,
  find_row-update_where id (λ row. record row { payload_json = payload }) j queue.rows
      (λ row. refl),
)

module _ (h : Host) (queue : EventQueue) (w : h.World) where
  open h use {utc_timestamp}

  -- An event is stored under its identity if that is new, as a pending one that was never attempted;
  -- a known identity keeps the event that it has; all others keep theirs.
  pub get-enqueue :
      (payload : EventPayload) (j : Text)
      → get j (enqueue h payload queue w).0 ≡ (
          if is_some (get j queue)
          then get j queue
          else if text_eq payload.edge_event_id j
          then some (fresh_event (queue.sequence + 1) payload (utc_timestamp w).0)
          else none)
  unfolding get enqueue
  get-enqueue payload j = ground (
    arith,
    find_row-append j queue.rows (new_row (queue.sequence + 1) payload (utc_timestamp w).0),
    text_eq_iff payload.edge_event_id j,
  )

  -- An attempt is counted, dated and its error, or none, is recorded, for this event alone.
  pub get-mark_attempt :
      (id : Text) (error : Option Text) (j : Text)
      → get j (mark_attempt h id error queue w).0 ≡ (
          if text_eq id j
          then Option.map (after_attempt (utc_timestamp w).0 error) (get j queue)
          else get j queue)
  unfolding get mark_attempt
  get-mark_attempt id error j = ground (
    arith,
    find_row-update_where id (attempted (utc_timestamp w).0 error) j queue.rows (λ row. refl),
  )

  -- A delivery is dated and its error cleared, for this event alone.
  pub get-mark_delivered :
      (id : Text) (j : Text)
      → get j (mark_delivered h id queue w).0 ≡ (
          if text_eq id j
          then Option.map (after_delivery (utc_timestamp w).0) (get j queue)
          else get j queue)
  unfolding get mark_delivered
  get-mark_delivered id j =
      ground
        (arith, find_row-update_where id (completed (utc_timestamp w).0) j queue.rows (λ row. refl))
