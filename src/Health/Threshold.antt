-- ===== src/Health/Threshold.antt =====
-- When missing answers make the reader count as offline.
use mvd_edge_agent.Prelude.{
  ℕ, zero, suc, ◌+◌, ◌≡◌, refl, true, false, List, [], ◌∷◌, arith, leb, if◌then◌else◌, Text,
}
use mvd_edge_agent.Host.{Host}
use mvd_edge_agent.Health.{
  HealthState, degraded, offline, mark_inventory_no_response, mark_inventory_success,
}

-- `n` inventories in a row with no answer.
pub missing : ℕ → HealthState → HealthState
missing zero s = s
missing (suc n) s = missing n (mark_inventory_no_response s)

count-missing :
    (n : ℕ) (s : HealthState)
    → (missing n s).consecutive_no_response_count ≡ s.consecutive_no_response_count + n
unfolding missing mark_inventory_no_response
count-missing zero s = omega arith
count-missing (suc n) s = omega (arith, count-missing n (mark_inventory_no_response s))

threshold-missing :
    (n : ℕ) (s : HealthState)
    → (missing n s).offline_failure_threshold ≡ s.offline_failure_threshold
unfolding missing mark_inventory_no_response
threshold-missing zero s = refl
threshold-missing (suc n) s = threshold-missing n (mark_inventory_no_response s)

missing-last :
    (n : ℕ) (s : HealthState) → missing (suc n) s ≡ mark_inventory_no_response (missing n s)
unfolding missing
missing-last zero s = refl
missing-last (suc n) s = missing-last n (mark_inventory_no_response s)

module _ (h : Host) where
  open h use {World}

  success_threshold :
      (tags : List Text) (s : HealthState) (w : World)
      → (mark_inventory_success h tags s w).0.offline_failure_threshold
        ≡ s.offline_failure_threshold
  unfolding mark_inventory_success
  success_threshold [] s w = refl
  success_threshold (tag ∷ tags) s w = refl

  success_count :
      (tags : List Text) (s : HealthState) (w : World)
      → (mark_inventory_success h tags s w).0.consecutive_no_response_count ≡ 0
  unfolding mark_inventory_success
  success_count [] s w = refl
  success_count (tag ∷ tags) s w = refl

  -- After a successful inventory, `n` missing answers in a row, one at least, leave the reader
  -- offline exactly if `n` reaches the threshold, and degraded otherwise; it still counts as
  -- connected, and all `n` are counted.
  pub missing_after_success :
      (tags : List Text) (s : HealthState) (w : World) (n : ℕ)
      → let t = missing (suc n) (mark_inventory_success h tags s w).0 in
        (t.health_status ≡ (if leb s.offline_failure_threshold (suc n) then offline else degraded))
        × (t.consecutive_no_response_count ≡ suc n)
        × (t.reader_connected ≡ true)
        × (t.inventory_responding ≡ false)
  unfolding mark_inventory_no_response
  missing_after_success tags s w n =
      let t = (mark_inventory_success h tags s w).0 in
      rw (missing-last n t) (
        ground (
          arith,
          count-missing n t,
          threshold-missing n t,
          success_count tags s w,
          success_threshold tags s w,
        ))
