-- ===== src/Queue/Invariant.antt =====
-- What holds of the table after any operations: the schema's `unique`, the identities in the order of
-- insertion, a delivery date exactly on the delivered rows; and how the operations change the number
-- of pending rows.
use mvd_edge_agent.Prelude.{
  ℕ, ◌+◌, ◌≤◌, ◌<◌, ◌≡◌, refl, true, false, not, Option, some, List, [], ◌∷◌, ◌++◌, arith, length,
  keep, All, Text, text_eq, text_eq_iff, Bool-cases, inl, inr,
}
use mvd_edge_agent.Dict.{is_some}
use mvd_edge_agent.Host.{Host}
use mvd_edge_agent.Payload.{EventPayload}
use mvd_edge_agent.Queue.{
  Row, EventQueue, is_pending, find_row, update_where, new_row, attempted, completed,
  update_payload, enqueue, mark_attempt, mark_delivered, empty,
}
use mvd_edge_agent.Queue.Lookup.{KeepsEvent, find_row-update_where, find_row-append}

-- `edge_event_id text not null unique`
abbrev pub HasUniqueEvents : List Row → Type 0
HasUniqueEvents [] = Unit
HasUniqueEvents (row ∷ rows) =
    (is_some (find_row row.edge_event_id rows) ≡ false) × HasUniqueEvents rows

-- The identities climb from above `low` to `high` at most.
abbrev pub IsAscending : ℕ → List Row → ℕ → Type 0
IsAscending low [] high = low ≤ high
IsAscending low (row ∷ rows) high = (low < row.id) × IsAscending row.id rows high

abbrev pub IsDated : Row → Type 0
IsDated row = is_pending row ≡ not (is_some row.delivered_at)

pub record IsValid (queue : EventQueue) : Type 0 where
  pub unique : HasUniqueEvents queue.rows
  pub ascending : IsAscending 0 queue.rows queue.sequence
  pub dated : All IsDated queue.rows

pub empty-IsValid : IsValid empty
empty-IsValid = record { unique = tt; ascending = omega arith; dated = tt }

module _ (id : Text) (change : Row → Row) where
  update_where-HasUniqueEvents :
      (rows : List Row)
      → KeepsEvent change
      → HasUniqueEvents rows
      → HasUniqueEvents (update_where id change rows)
  unfolding update_where
  update_where-HasUniqueEvents [] k u = tt
  update_where-HasUniqueEvents (row ∷ rows) k u = (
    ground (arith, k row, find_row-update_where id change row.edge_event_id rows k),
    update_where-HasUniqueEvents rows k u.1,
  )

  update_where-IsAscending :
      (low high : ℕ) (rows : List Row)
      → ((row : Row) → (change row).id ≡ row.id)
      → IsAscending low rows high
      → IsAscending low (update_where id change rows) high
  unfolding update_where
  update_where-IsAscending low high [] k a = a
  update_where-IsAscending low high (row ∷ rows) k a =
      ground (arith, k row, update_where-IsAscending row.id high rows k a.1)

  update_where-All :
      (P : Row → Type 0) (rows : List Row)
      → ((row : Row) → P row → P (change row))
      → All P rows
      → All P (update_where id change rows)
  unfolding update_where
  update_where-All P [] k a = tt
  update_where-All P (row ∷ rows) k a = elim (Bool-cases (text_eq row.edge_event_id id)) [
    | inl same ↦ rw same (k row a.0, update_where-All P rows k a.1)
    | inr other ↦ rw other (a.0, update_where-All P rows k a.1)
  ]

  -- A change that leaves every status alone leaves the number of pending rows alone.
  pub keep-update_where :
      (rows : List Row)
      → ((row : Row) → is_pending (change row) ≡ is_pending row)
      → length (keep is_pending (update_where id change rows)) ≡ length (keep is_pending rows)
  unfolding update_where
  keep-update_where [] k = refl
  keep-update_where (row ∷ rows) k = ground (arith, k row, keep-update_where rows k)

  update_where-absent :
      (rows : List Row) → is_some (find_row id rows) ≡ false → update_where id change rows ≡ rows
  unfolding update_where find_row
  update_where-absent [] h = refl
  update_where-absent (row ∷ rows) h = ground (arith, update_where-absent rows)

  -- A change that completes one pending row, in a table with unique events, takes one off.
  pub keep-completed :
      (rows : List Row) (row : Row)
      → KeepsEvent change
      → HasUniqueEvents rows
      → ((r : Row) → is_pending (change r) ≡ false)
      → find_row id rows ≡ some row
      → is_pending row ≡ true
      → length (keep is_pending (update_where id change rows)) + 1 ≡ length (keep is_pending rows)
  unfolding update_where find_row
  keep-completed [] row k u done h p = cc
  keep-completed (r ∷ rows) row k u done h p = ground (
    arith,
    done r,
    text_eq_iff r.edge_event_id id,
    update_where-absent rows,
    keep-completed rows row k u.1 done,
  )

append-HasUniqueEvents :
    (rows : List Row) (last : Row)
    → HasUniqueEvents rows
    → is_some (find_row last.edge_event_id rows) ≡ false
    → HasUniqueEvents (rows ++ last ∷ [])
unfolding find_row
append-HasUniqueEvents [] last u new = (refl, tt)
append-HasUniqueEvents (row ∷ rows) last u new = (
  ground (
    arith,
    find_row-append row.edge_event_id rows last,
    text_eq_iff last.edge_event_id row.edge_event_id,
    text_eq_iff row.edge_event_id last.edge_event_id,
  ),
  append-HasUniqueEvents rows last u.1 (ground arith),
)

append-IsAscending :
    (low high : ℕ) (rows : List Row) (last : Row)
    → IsAscending low rows high
    → last.id ≡ high + 1
    → IsAscending low (rows ++ last ∷ []) (high + 1)
append-IsAscending low high [] last a e = (omega arith, omega arith)
append-IsAscending low high (row ∷ rows) last a e =
    (a.0, append-IsAscending row.id high rows last a.1 e)

-- A number that is used up.
IsAscending-next :
    (low high : ℕ) (rows : List Row) → IsAscending low rows high → IsAscending low rows (high + 1)
IsAscending-next low high [] a = omega arith
IsAscending-next low high (row ∷ rows) a = (a.0, IsAscending-next row.id high rows a.1)

append-All :
    (P : Row → Type 0) (rows : List Row) (last : Row)
    → All P rows
    → P last
    → All P (rows ++ last ∷ [])
append-All P [] last a p = (p, tt)
append-All P (row ∷ rows) last a p = (a.0, append-All P rows last a.1 p)

pub update_payload-IsValid :
    (id : Text) (payload : EventPayload) (queue : EventQueue)
    → IsValid queue
    → IsValid (update_payload id payload queue)
unfolding update_payload
update_payload-IsValid id payload queue v =
    let change = λ (row : Row). record row { payload_json = payload } in
    record {
      unique = update_where-HasUniqueEvents id change queue.rows (λ row. refl) v.unique;
      ascending =
          update_where-IsAscending id change 0 queue.sequence queue.rows (λ row. refl) v.ascending;
      dated = update_where-All id change IsDated queue.rows (λ row d. d) v.dated;
    }

module _ (h : Host) (queue : EventQueue) (w : h.World) (v : IsValid queue) where
  open h use {utc_timestamp}

  pub enqueue-IsValid : (payload : EventPayload) → IsValid (enqueue h payload queue w).0
  unfolding enqueue
  enqueue-IsValid payload =
      elim (Bool-cases (is_some (find_row payload.edge_event_id queue.rows))) [
        | inl known ↦ rw known (record {
          unique = v.unique;
          ascending = IsAscending-next 0 queue.sequence queue.rows v.ascending;
          dated = v.dated;
        })
        | inr new ↦
            let last = new_row (queue.sequence + 1) payload (utc_timestamp w).0 in
            rw new (record {
              unique = append-HasUniqueEvents queue.rows last v.unique new;
              ascending = append-IsAscending 0 queue.sequence queue.rows last v.ascending refl;
              dated = append-All IsDated queue.rows last v.dated refl;
            })
      ]

  pub mark_attempt-IsValid :
      (id : Text) (error : Option Text) → IsValid (mark_attempt h id error queue w).0
  unfolding mark_attempt
  mark_attempt-IsValid id error =
      let change = attempted (utc_timestamp w).0 error in
      record {
        unique = update_where-HasUniqueEvents id change queue.rows (λ row. refl) v.unique;
        ascending =
            update_where-IsAscending id change 0 queue.sequence queue.rows (λ row. refl)
              v.ascending;
        dated = update_where-All id change IsDated queue.rows (λ row d. d) v.dated;
      }

  pub mark_delivered-IsValid : (id : Text) → IsValid (mark_delivered h id queue w).0
  unfolding mark_delivered
  mark_delivered-IsValid id =
      let change = completed (utc_timestamp w).0 in
      record {
        unique = update_where-HasUniqueEvents id change queue.rows (λ row. refl) v.unique;
        ascending =
            update_where-IsAscending id change 0 queue.sequence queue.rows (λ row. refl)
              v.ascending;
        dated = update_where-All id change IsDated queue.rows (λ row d. refl) v.dated;
      }
