-- ===== src/Health/Coherence.antt =====
-- The flags and the status of the health state agree, whatever was reported.
use mvd_edge_agent.Prelude.{◌≡◌, true, false, none, List, [], ◌∷◌, arith, Text}
use mvd_edge_agent.Host.{Host}
use mvd_edge_agent.Health.{
  HealthState, ReaderState, healthy, reconnecting, create, set_reader_state, mark_reader_connecting,
  mark_reader_ready, mark_reconnect_attempt, mark_inventory_success, mark_inventory_no_response,
  mark_inventory_malformed, mark_reader_offline, clear_error, mark_event, mark_cloud_delivery,
  mark_error, mark_reader_activity,
}

-- HEALTHY means that the reader is connected and answered its last inventory, with no answer missing
-- and no reader error; a reader that answers is connected; RECONNECTING means that it is not.
pub record IsCoherent (s : HealthState) : Type 0 where
  pub healthy_connected : s.health_status ≡ healthy → s.reader_connected ≡ true
  pub healthy_responding : s.health_status ≡ healthy → s.inventory_responding ≡ true
  pub healthy_count : s.health_status ≡ healthy → s.consecutive_no_response_count ≡ 0
  pub healthy_error : s.health_status ≡ healthy → s.last_reader_error ≡ none
  pub responding_healthy : s.inventory_responding ≡ true → s.health_status ≡ healthy
  pub reconnecting_cut : s.health_status ≡ reconnecting → s.reader_connected ≡ false

-- What can be reported to the health state.
pub data Report : Type 0 where
  state_set : ReaderState → Report
  activity : Report
  is_connecting : Report
  is_ready : Report
  reconnect_attempt : Report
  inventory_success : List Text → Report
  inventory_no_response : Report
  inventory_malformed : Report
  is_offline : Text → Report
  event_seen : Report
  cloud_delivery : Report
  error_seen : Text → Report
  error_cleared : Report

module _ (h : Host) where
  open h use {World}

  -- The method behind each report.
  unfoldable pub report : Report → HealthState → World → HealthState × World
  report (state_set state) s w = (set_reader_state state s, w)
  report activity s w = mark_reader_activity h s w
  report is_connecting s w = (mark_reader_connecting s, w)
  report is_ready s w = (mark_reader_ready s, w)
  report reconnect_attempt s w = (mark_reconnect_attempt s, w)
  report (inventory_success tags) s w = mark_inventory_success h tags s w
  report inventory_no_response s w = (mark_inventory_no_response s, w)
  report inventory_malformed s w = (mark_inventory_malformed s, w)
  report (is_offline error) s w = (mark_reader_offline error s, w)
  report event_seen s w = mark_event h s w
  report cloud_delivery s w = mark_cloud_delivery h s w
  report (error_seen error) s w = mark_error h error s w
  report error_cleared s w = (clear_error s, w)

  pub reports : List Report → HealthState → World → HealthState × World
  unfolding report
  reports [] s w = (s, w)
  reports (r ∷ rs) s w = let (s', w') = report r s w in reports rs s' w'

  pub report-IsCoherent :
      (r : Report) (s : HealthState) (w : World) → IsCoherent s → IsCoherent (report r s w).0
  unfolding report set_reader_state mark_reader_connecting mark_reader_ready mark_reconnect_attempt
      mark_inventory_success mark_inventory_no_response mark_inventory_malformed mark_reader_offline
      clear_error mark_event mark_cloud_delivery mark_error mark_reader_activity
  report-IsCoherent (state_set state) s w c = ground arith
  report-IsCoherent (inventory_success []) s w c = ground arith
  report-IsCoherent (inventory_success (tag ∷ tags)) s w c = ground arith
  report-IsCoherent _ s w c = ground arith

  reports_from-IsCoherent :
      (rs : List Report) (s : HealthState) (w : World)
      → IsCoherent s
      → IsCoherent (reports rs s w).0
  unfolding reports
  reports_from-IsCoherent [] s w c = c
  reports_from-IsCoherent (r ∷ rs) s w c =
      let (s', w') = report r s w in reports_from-IsCoherent rs s' w' (report-IsCoherent r s w c)

  -- From a fresh health state, after any reports in any order, the status agrees with the flags.
  pub reports-IsCoherent :
      (rs : List Report) (state : ReaderState) (w : World)
      → IsCoherent (reports rs (create state) w).0
  reports-IsCoherent rs state w = reports_from-IsCoherent rs (create state) w (ground arith)
