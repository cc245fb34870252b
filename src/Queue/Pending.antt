-- ===== src/Queue/Pending.antt =====
-- `fetch_pending` and `pending_count`.
use Prim.Native.Nat.{min}
use mathlib.Core.List.{Perm}
use mvd_edge_agent.Prelude.{
  ℕ, ◌≡◌, refl, ap, ◌∙◌, true, false, List, ◌++◌, map, arith, length, take, drop, keep, All,
  take-append-drop, length-take, text_eq_iff, text_le_total, text_le_trans, text_le_antisym,
}
use mvd_edge_agent.Prelude.Sort.{
  sort_by, IsSorted, sort_by-perm, length-sort_by, sort_by-IsSorted, take-IsSorted,
  take-before-drop,
}
use mvd_edge_agent.Queue.{
  Row, EventQueue, is_pending, row_le, row_to_event, fetch_pending, pending_count,
}

-- The order of creation is total and transitive.
row_le_total : (a b : Row) → row_le a b ≡ false → row_le b a ≡ true
unfolding row_le
row_le_total a b h = ground (
  arith,
  text_eq_iff a.created_at b.created_at,
  text_eq_iff b.created_at a.created_at,
  text_le_total a.created_at b.created_at,
)

row_le_trans : (a b c : Row) → row_le a b ≡ true → row_le b c ≡ true → row_le a c ≡ true
unfolding row_le
row_le_trans a b c h k = ground (
  arith,
  text_eq_iff a.created_at b.created_at,
  text_eq_iff b.created_at c.created_at,
  text_eq_iff a.created_at c.created_at,
  text_le_trans a.created_at b.created_at c.created_at,
  text_le_antisym a.created_at b.created_at,
)

-- What a fetch returns: the oldest pending events, in the order of creation.
pub record IsOldestFirst (limit : ℕ) (queue : EventQueue) : Type 0 where
  pub chosen : List Row
  pub left : List Row
  pub fetched : fetch_pending limit queue ≡ map row_to_event chosen
  pub every_pending : Perm (chosen ++ left) (keep is_pending queue.rows)
  pub ordered : IsSorted row_le chosen
  pub before_left : All (λ a. All (λ b. row_le a b ≡ true) left) chosen
  pub as_many : length chosen ≡ min limit (pending_count queue)

-- A fetch splits the pending events into the chosen ones, which are at most `limit` and as many as
-- there are up to that, in the order of creation, and those that are left, which were all created
-- no earlier; no pending event is lost or doubled.
pub fetch_pending_lem : (limit : ℕ) (queue : EventQueue) → IsOldestFirst limit queue
unfolding fetch_pending pending_count
fetch_pending_lem limit queue =
    let all = sort_by row_le (keep is_pending queue.rows) in
    let sorted = sort_by-IsSorted row_le row_le_total row_le_trans (keep is_pending queue.rows) in
    record {
      chosen = take limit all;
      left = drop limit all;
      fetched = refl;
      every_pending = rw take-append-drop (sort_by-perm row_le (keep is_pending queue.rows));
      ordered = take-IsSorted row_le limit all sorted;
      before_left = take-before-drop row_le limit all sorted;
      as_many =
          length-take limit all
          ∙ ap (min limit) (length-sort_by row_le (keep is_pending queue.rows));
    }
