-- ===== src/Scan/Keeps.antt =====
-- What a scan keeps: a coherent health state and one entry for each key (src/mvd_edge/app.py).
use mvd_edge_agent.Prelude.{◌≡◌, Option, none, some, arith, Text, inl, inr, sym, codes}
use mathlib.Core.Path.{subst}
use mvd_edge_agent.Dict.{HasUniqueKeys, is_some}
use mvd_edge_agent.Outcome.{Outcome, ok, raised, message}
use mvd_edge_agent.Host.{Host}
use mvd_edge_agent.Idt85.Inventory.{InventoryResult}
use mvd_edge_agent.Reader.{close_port}
use mvd_edge_agent.Presence.{PresenceState}
use mvd_edge_agent.Presence.Update.{update-HasUniqueKeys}
use mvd_edge_agent.Health.{HealthState, disconnected, set_reader_state, mark_error}
use mvd_edge_agent.Health.Coherence.{
  IsCoherent, report, report-IsCoherent, state_set, error_seen, is_offline, inventory_success,
  inventory_no_response, inventory_malformed,
}
use mvd_edge_agent.Scan.{ScanState, tell_inventory, tell_lost, scanned, read_inventory_events}
use mvd_edge_agent.Scan.Reports.{read_inventory_events_cases}

-- A health state, if there is one, is coherent.
abbrev pub AreCoherent : Option HealthState → Type 0
AreCoherent none = Unit
AreCoherent (some s) = IsCoherent s

module _ (h : Host) where
  open h use {World, time}

  tell_lost-IsCoherent :
      (error : Text) (health : Option HealthState) (w : World)
      → AreCoherent health
      → AreCoherent (tell_lost h error health w).0
  unfolding tell_lost report
  tell_lost-IsCoherent error none w c = tt
  tell_lost-IsCoherent error (some s) w c =
      let lost = set_reader_state disconnected s in
      let marked = mark_error h (codes "SERIAL_DISCONNECTED") lost w in
      report-IsCoherent h (is_offline error) marked.0 marked.1 (
        report-IsCoherent h (error_seen (codes "SERIAL_DISCONNECTED")) lost w
          (report-IsCoherent h (state_set disconnected) s w c))

  tell_inventory-IsCoherent :
      (result : InventoryResult) (health : Option HealthState) (w : World)
      → AreCoherent health
      → AreCoherent (tell_inventory h result health w).0
  unfolding tell_inventory report
  tell_inventory-IsCoherent result none w c = tt
  tell_inventory-IsCoherent result (some s) w c = ground (
    arith,
    report-IsCoherent h (inventory_success result.tags) s w c,
    report-IsCoherent h inventory_no_response s w c,
    report-IsCoherent h inventory_malformed s w c,
  )

  scanned-IsCoherent :
      (s : ScanState) (reader_id : Option Text) (outcome : Outcome InventoryResult) (w : World)
      → AreCoherent s.health
      → AreCoherent (scanned h s reader_id outcome w).0.after.health
  unfolding scanned
  scanned-IsCoherent s reader_id (ok result) w c =
      let told = tell_inventory-IsCoherent result s.health (time w).1 c in ground (arith, told)
  scanned-IsCoherent s reader_id (raised e) w c =
      tell_lost-IsCoherent (message e) s.health (close_port h s.reader w).1 c

  pub read_inventory_events-IsCoherent :
      (s : ScanState) (reader_id : Option Text) (w : World)
      → AreCoherent s.health
      → AreCoherent (read_inventory_events h s reader_id w).0.after.health
  unfolding read_inventory_events
  read_inventory_events-IsCoherent s reader_id w c = scanned-IsCoherent s reader_id _ _ c

  pub read_inventory_events-HasUniqueKeys :
      (s : ScanState) (reader : Text) (w : World)
      → HasUniqueKeys s.presence.visible_tags
      → HasUniqueKeys (read_inventory_events h s (some reader) w).0.after.presence.visible_tags
  read_inventory_events-HasUniqueKeys s reader w u =
      elim (read_inventory_events_cases h s (some reader) w) [
        | inl (result, same, is_valid, (w', events, presence)) ↦
            subst (λ (x : PresenceState). HasUniqueKeys x.visible_tags) (sym presence)
              (update-HasUniqueKeys h reader s.presence result.tags (time w').0 (time w').1 u)
        | inr (never, (events, presence)) ↦
            subst (λ (x : PresenceState). HasUniqueKeys x.visible_tags) (sym presence) u
      ]

  tell_inventory-is_some :
      (result : InventoryResult) (health : Option HealthState) (w : World)
      → is_some (tell_inventory h result health w).0 ≡ is_some health
  unfolding tell_inventory
  tell_inventory-is_some result health w = ground arith

  tell_lost-is_some :
      (error : Text) (health : Option HealthState) (w : World)
      → is_some (tell_lost h error health w).0 ≡ is_some health
  unfolding tell_lost
  tell_lost-is_some error health w = ground arith

  scanned-is_some :
      (s : ScanState) (reader_id : Option Text) (outcome : Outcome InventoryResult) (w : World)
      → is_some (scanned h s reader_id outcome w).0.after.health ≡ is_some s.health
  unfolding scanned
  scanned-is_some s reader_id (ok result) w =
      ground (arith, tell_inventory-is_some result s.health (time w).1)
  scanned-is_some s reader_id (raised e) w =
      tell_lost-is_some (message e) s.health (close_port h s.reader w).1

  pub read_inventory_events-is_some :
      (s : ScanState) (reader_id : Option Text) (w : World)
      → is_some (read_inventory_events h s reader_id w).0.after.health ≡ is_some s.health
  unfolding read_inventory_events
  read_inventory_events-is_some s reader_id w = scanned-is_some s reader_id _ _
