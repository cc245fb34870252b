-- ===== src/Delivery/Fetched.antt =====
-- The events that a fetch hands to the delivery loop: stored, pending, and each once.
use mvd_edge_agent.Prelude.{
  ℕ, zero, suc, ◌≡◌, ◌∙◌, Bool, true, false, Option, none, some, List, [], ◌∷◌, map, arith, take,
  keep, All, take-All, keep-All, All-zip, Text, text_eq, text_eq_iff, text_eq_sym, Bool-cases, inl,
  inr,
}
use mvd_edge_agent.Prelude.Sort.{sort_by, insert_by, sort_by-All, insert_by-All}
use mvd_edge_agent.Dict.{is_some}
use mvd_edge_agent.Queue.{
  Row, QueuedEvent, EventQueue, is_pending, row_le, row_to_event, find_row, fetch_pending,
}
use mvd_edge_agent.Queue.Invariant.{IsValid, HasUniqueEvents}

abbrev pub is_pending_row : Option Row → Bool
is_pending_row none = false
is_pending_row (some row) = is_pending row

abbrev pub is_waiting : EventQueue → Text → Bool
is_waiting queue id = is_pending_row (find_row id queue.rows)

-- None of the events has this identity.
abbrev pub IsAbsent : Text → List QueuedEvent → Type 0
IsAbsent id = All (λ e. text_eq e.edge_event_id id ≡ false)

abbrev pub AreDistinct : List QueuedEvent → Type 0
AreDistinct [] = Unit
AreDistinct (e ∷ es) = IsAbsent e.edge_event_id es × AreDistinct es

abbrev pub AreWaiting : EventQueue → List QueuedEvent → Type 0
AreWaiting queue = All (λ e. is_waiting queue e.edge_event_id ≡ true)

-- The same of rows.
abbrev pub Differs : Text → Row → Type 0
Differs id row = text_eq row.edge_event_id id ≡ false

abbrev pub HasDistinctRows : List Row → Type 0
HasDistinctRows [] = Unit
HasDistinctRows (row ∷ rows) = All (Differs row.edge_event_id) rows × HasDistinctRows rows

Differs-of_absent :
    (id : Text) (rows : List Row) → is_some (find_row id rows) ≡ false → All (Differs id) rows
unfolding find_row
Differs-of_absent id [] h = tt
Differs-of_absent id (row ∷ rows) h = ground (arith, Differs-of_absent id rows)

pub distinct_of_unique : (rows : List Row) → HasUniqueEvents rows → HasDistinctRows rows
distinct_of_unique [] u = tt
distinct_of_unique (row ∷ rows) u =
    (Differs-of_absent row.edge_event_id rows u.0, distinct_of_unique rows u.1)

keep-HasDistinctRows :
    (test : Row → Bool) (rows : List Row) → HasDistinctRows rows → HasDistinctRows (keep test rows)
keep-HasDistinctRows test [] d = tt
keep-HasDistinctRows test (row ∷ rows) d = elim (Bool-cases (test row)) [
  | inl kept ↦
      rw kept
        (keep-All (Differs row.edge_event_id) test rows d.0, keep-HasDistinctRows test rows d.1)
  | inr dropped ↦ rw dropped (keep-HasDistinctRows test rows d.1)
]

insert-HasDistinctRows :
    (row : Row) (rows : List Row)
    → All (Differs row.edge_event_id) rows
    → HasDistinctRows rows
    → HasDistinctRows (insert_by row_le row rows)
unfolding insert_by
insert-HasDistinctRows row [] a d = (tt, tt)
insert-HasDistinctRows row (r ∷ rows) a d = elim (Bool-cases (row_le row r)) [
  | inl below ↦ rw below (a, d)
  | inr above ↦ rw above (
    insert_by-All row_le (Differs r.edge_event_id) row rows
        (text_eq_sym row.edge_event_id r.edge_event_id ∙ a.0) d.0,
    insert-HasDistinctRows row rows a.1 d.1,
  )
]

sort-HasDistinctRows :
    (rows : List Row) → HasDistinctRows rows → HasDistinctRows (sort_by row_le rows)
unfolding sort_by
sort-HasDistinctRows [] d = tt
sort-HasDistinctRows (row ∷ rows) d =
    insert-HasDistinctRows row (sort_by row_le rows)
      (sort_by-All row_le (Differs row.edge_event_id) rows d.0) (sort-HasDistinctRows rows d.1)

take-HasDistinctRows :
    (n : ℕ) (rows : List Row) → HasDistinctRows rows → HasDistinctRows (take n rows)
take-HasDistinctRows zero rows d = tt
take-HasDistinctRows (suc n) [] d = tt
take-HasDistinctRows (suc n) (row ∷ rows) d =
    (take-All (Differs row.edge_event_id) n rows d.0, take-HasDistinctRows n rows d.1)

abbrev Waits : List Row → Row → Type 0
Waits rows row = is_pending_row (find_row row.edge_event_id rows) ≡ true

-- Among distinct rows a pending row is found, pending, under its identity.
keep-Waits : (rows : List Row) → HasDistinctRows rows → All (Waits rows) (keep is_pending rows)
unfolding find_row
keep-Waits [] d = tt
keep-Waits (row ∷ rows) d =
    let others : All (Waits (row ∷ rows)) (keep is_pending rows) =
      All-zip (Waits rows) (Differs row.edge_event_id) (Waits (row ∷ rows)) (keep is_pending rows)
        (λ r waits differs. ground (arith, text_eq_sym row.edge_event_id r.edge_event_id))
        (keep-Waits rows d.1) (keep-All (Differs row.edge_event_id) is_pending rows d.0) in
    elim (Bool-cases (is_pending row)) [
      | inl kept ↦
          rw kept (ground (arith, text_eq_iff row.edge_event_id row.edge_event_id, kept), others)
      | inr dropped ↦ rw dropped others
    ]

events-IsAbsent :
    (id : Text) (rows : List Row) → All (Differs id) rows → IsAbsent id (map row_to_event rows)
events-IsAbsent id [] a = tt
events-IsAbsent id (row ∷ rows) a = (a.0, events-IsAbsent id rows a.1)

events_distinct : (rows : List Row) → HasDistinctRows rows → AreDistinct (map row_to_event rows)
events_distinct [] d = tt
events_distinct (row ∷ rows) d =
    (events-IsAbsent row.edge_event_id rows d.0, events_distinct rows d.1)

events_waiting :
    (queue : EventQueue) (rows : List Row)
    → All (Waits queue.rows) rows
    → AreWaiting queue (map row_to_event rows)
events_waiting queue [] a = tt
events_waiting queue (row ∷ rows) a = (a.0, events_waiting queue rows a.1)

module _ (limit : ℕ) (queue : EventQueue) (v : IsValid queue) where
  pub fetch_pending-AreDistinct : AreDistinct (fetch_pending limit queue)
  unfolding fetch_pending
  fetch_pending-AreDistinct = events_distinct _ (
      take-HasDistinctRows limit (sort_by row_le (keep is_pending queue.rows)) (
        sort-HasDistinctRows (keep is_pending queue.rows)
          (keep-HasDistinctRows is_pending queue.rows (distinct_of_unique queue.rows v.unique))))

  pub fetch_pending-AreWaiting : AreWaiting queue (fetch_pending limit queue)
  unfolding fetch_pending
  fetch_pending-AreWaiting = events_waiting queue _ (
      take-All (Waits queue.rows) limit (sort_by row_le (keep is_pending queue.rows)) (
        sort_by-All row_le (Waits queue.rows) (keep is_pending queue.rows)
          (keep-Waits queue.rows (distinct_of_unique queue.rows v.unique))))
