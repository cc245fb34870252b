-- ===== src/Queue.antt =====
-- The durable queue of events (src/mvd_edge/storage/queue.py): the table `event_queue` as its rows in
-- the order of insertion, and each method as the change that its SQL statement makes to them.
pub mod Lookup
pub mod Pending
pub mod Invariant
pub mod History
pub mod Specification
use mvd_edge_agent.Prelude.{
  ℕ, ◌+◌, Bool, true, false, ◌&&◌, ◌||◌, Option, none, some, List, [], ◌∷◌, ◌++◌, map, length, take,
  leb, ltb, if◌then◌else◌, Text, text_eq, text_le, strip, replace_char, keep,
}
use mvd_edge_agent.Prelude.Sort.{sort_by}
use mvd_edge_agent.Dict.{is_some}
use mvd_edge_agent.Outcome.{Outcome, ok, raised}
use mvd_edge_agent.Host.{Host}
use mvd_edge_agent.Payload.{EventPayload}

pub data DeliveryStatus : Type 0 where
  pending delivered : DeliveryStatus

-- A row of the table.
pub record Row : Type 0 where
  pub id : ℕ
  pub edge_event_id : Text
  pub payload_json : EventPayload
  pub created_at : Text
  pub attempt_count : ℕ
  pub last_attempt_at : Option Text
  pub delivered_at : Option Text
  pub status : DeliveryStatus
  pub last_error : Option Text

pub record QueuedEvent : Type 0 where
  pub id : ℕ
  pub edge_event_id : Text
  pub payload : EventPayload
  pub created_at : Text
  pub attempt_count : ℕ
  pub last_attempt_at : Option Text
  pub delivered_at : Option Text
  pub status : DeliveryStatus
  pub last_error : Option Text

-- The rows, and what SQLite's `sqlite_sequence` holds for the table (`autoincrement`).
pub record EventQueue : Type 0 where
  pub sequence : ℕ
  pub rows : List Row

-- `_initialize_schema` on a new file.
abbrev pub empty : EventQueue
empty = record { sequence = 0; rows = [] }

-- `__init__`: the table that a file holds, if there is one, is left as it is.
abbrev pub initialize_schema : Option EventQueue → EventQueue
initialize_schema none = empty
initialize_schema (some queue) = queue

-- `__init__` on what making the directory and opening the file came to: an exception, or the table
-- that the file holds, if there is one.
abbrev pub open_queue : Outcome (Option EventQueue) → Outcome EventQueue
open_queue (raised e) = raised e
open_queue (ok file) = ok (initialize_schema file)

-- `sanitize_error(error, 500)`: line feeds and carriage returns become blanks.
unfoldable pub sanitize_error : ℕ → Text → Text
sanitize_error max_length error =
    take max_length (strip (replace_char 13 32 (replace_char 10 32 error)))

abbrev pub is_pending : Row → Bool
is_pending row = elim row.status [ pending ↦ true | delivered ↦ false ]

-- `order by created_at asc, id asc`
unfoldable pub row_le : Row → Row → Bool
row_le a b =
    if text_eq a.created_at b.created_at then leb a.id b.id else text_le a.created_at b.created_at

-- `where edge_event_id = ?`, first row.
unfoldable pub find_row : Text → List Row → Option Row
find_row id [] = none
find_row id (row ∷ rows) = if text_eq row.edge_event_id id then some row else find_row id rows

-- `update event_queue set … where edge_event_id = ?`
unfoldable pub update_where : Text → (Row → Row) → List Row → List Row
update_where id change [] = []
update_where id change (row ∷ rows) =
    (if text_eq row.edge_event_id id then change row else row) ∷ update_where id change rows

-- `_row_to_event`
abbrev pub row_to_event : Row → QueuedEvent
row_to_event row = record {
  id = row.id;
  edge_event_id = row.edge_event_id;
  payload = row.payload_json;
  created_at = row.created_at;
  attempt_count = row.attempt_count;
  last_attempt_at = row.last_attempt_at;
  delivered_at = row.delivered_at;
  status = row.status;
  last_error = row.last_error;
}

-- The row that `enqueue` inserts; the other columns have the schema's defaults.
abbrev pub new_row : ℕ → EventPayload → Text → Row
new_row id payload now = record {
  id = id;
  edge_event_id = payload.edge_event_id;
  payload_json = payload;
  created_at = now;
  attempt_count = 0;
  last_attempt_at = none;
  delivered_at = none;
  status = pending;
  last_error = none;
}

-- `sanitize_error(error) if error else None`
abbrev pub recorded_error : Option Text → Option Text
recorded_error none = none
recorded_error (some []) = none
recorded_error (some (c ∷ t)) = some (sanitize_error 500 (c ∷ t))

abbrev pub attempted : Text → Option Text → Row → Row
attempted now error row = record row {
  attempt_count = row.attempt_count + 1;
  last_attempt_at = some now;
  last_error = recorded_error error;
}

abbrev pub completed : Text → Row → Row
completed now row = record row { status = delivered; delivered_at = some now; last_error = none }

-- `select … where status = 'PENDING' order by … limit ?`
unfoldable pub fetch_pending : ℕ → EventQueue → List QueuedEvent
fetch_pending limit queue =
    map row_to_event (take limit (sort_by row_le (keep is_pending queue.rows)))

unfoldable pub pending_count : EventQueue → ℕ
pending_count queue = length (keep is_pending queue.rows)

unfoldable pub get : Text → EventQueue → Option QueuedEvent
get id queue = elim (find_row id queue.rows) [ none ↦ none | some row ↦ some (row_to_event row) ]

unfoldable pub update_payload : Text → EventPayload → EventQueue → EventQueue
update_payload id payload queue = record queue {
  rows = update_where id (λ row. record row { payload_json = payload }) queue.rows;
}

module _ (h : Host) where
  open h use {World, utc_timestamp}

  -- `insert or ignore`: a known `edge_event_id` leaves the rows as they are, but the identity that was
  -- drawn for the ignored row is used up.
  unfoldable pub enqueue : EventPayload → EventQueue → World → EventQueue × World
  enqueue payload queue w =
      let (now, w') = utc_timestamp w in
      let id = queue.sequence + 1 in
      if is_some (find_row payload.edge_event_id queue.rows)
      then (record { sequence = id; rows = queue.rows }, w')
      else (record { sequence = id; rows = queue.rows ++ new_row id payload now ∷ [] }, w')

  unfoldable pub mark_attempt : Text → Option Text → EventQueue → World → EventQueue × World
  mark_attempt id error queue w =
      let (now, w') = utc_timestamp w in
      (record queue { rows = update_where id (attempted now error) queue.rows }, w')

  unfoldable pub mark_delivered : Text → EventQueue → World → EventQueue × World
  mark_delivered id queue w =
      let (now, w') = utc_timestamp w in
      (record queue { rows = update_where id (completed now) queue.rows }, w')
