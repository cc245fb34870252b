-- ===== src/Scan/Reports.antt =====
-- What a scan reports of the port, the health state and the tags (src/mvd_edge/app.py).
use mvd_edge_agent.Prelude.{
  ◌≡◌, ◌≢◌, refl, Bool, true, false, Option, none, some, [], arith, Text, ◌⊎◌, inl, inr,
}
use mvd_edge_agent.Outcome.{Outcome, ok, raised, message}
use mvd_edge_agent.Host.{Host}
use mvd_edge_agent.Idt85.Inventory.{InventoryResult, InventoryStatus, valid, no_response, malformed}
use mvd_edge_agent.Idt85.Device.{Idt85Reader}
use mvd_edge_agent.Reader.{inventory, close_port, send_command}
use mvd_edge_agent.Presence.{update}
use mvd_edge_agent.Health.{
  HealthState, mark_inventory_success, mark_inventory_no_response, mark_inventory_malformed,
  mark_reader_offline,
}
use mvd_edge_agent.Connect.Port.{is_ready}
use mvd_edge_agent.Scan.{
  ScanState, ScanResult, tell_inventory, tell_lost, scanned, read_inventory_events,
}

-- A health state, if there is one, says of the reader that it is connected or that it is not.
abbrev pub Says : Bool → Option HealthState → Type 0
Says connected none = Unit
Says connected (some s) = s.reader_connected ≡ connected

module _ (h : Host) where
  open h use {World, time}

  tell_inventory-Says :
      (result : InventoryResult) (health : Option HealthState) (w : World)
      → Says true (tell_inventory h result health w).0
  unfolding tell_inventory mark_inventory_success mark_inventory_no_response
      mark_inventory_malformed
  tell_inventory-Says result none w = tt
  tell_inventory-Says result (some s) w = ground arith

  tell_lost-Says :
      (error : Text) (health : Option HealthState) (w : World)
      → Says false (tell_lost h error health w).0
  unfolding tell_lost mark_reader_offline
  tell_lost-Says error none w = tt
  tell_lost-Says error (some s) w = refl

  -- The port is open and the health state, if there is one, says that the reader is connected, both
  -- exactly if the state is READY.
  abbrev pub Agrees : ScanResult → Type 0
  Agrees r =
      (r.after.reader.is_open ≡ is_ready r.reader_state)
      × Says (is_ready r.reader_state) r.after.health

  scanned-Agrees :
      (s : ScanState) (reader_id : Option Text) (outcome : Outcome InventoryResult) (w : World)
      → ((result : InventoryResult) → outcome ≡ ok result → s.reader.is_open ≡ true)
      → Agrees (scanned h s reader_id outcome w).0
  unfolding scanned close_port
  scanned-Agrees s reader_id (ok result) w is_open =
      let is_open' = is_open result refl in
      let says = tell_inventory-Says result s.health (time w).1 in ground (arith, is_open', says)
  scanned-Agrees s reader_id (raised e) w is_open =
      (ground arith, tell_lost-Says (message e) s.health (close_port h s.reader w).1)

  inventory-is_open :
      (reader : Idt85Reader) (w : World) (result : InventoryResult)
      → (inventory h reader w).0 ≡ ok result
      → reader.is_open ≡ true
  unfolding inventory send_command
  inventory-is_open reader w result e = ground arith

  -- After a scan, whether it got a result or an exception, the port is open exactly if the scan
  -- returns READY, and the health state, if there is one, says that the reader is connected exactly
  -- then.
  pub read_inventory_events-Agrees :
      (s : ScanState) (reader_id : Option Text) (w : World)
      → Agrees (read_inventory_events h s reader_id w).0
  unfolding read_inventory_events
  read_inventory_events-Agrees s reader_id w =
      scanned-Agrees s reader_id (inventory h s.reader (time w).1).0 _
        (inventory-is_open s.reader (time w).1)

  -- The presence is as it was, and there is no event.
  abbrev pub IsUneventful : ScanState → ScanResult → Type 0
  IsUneventful s r = (r.events ≡ []) × (r.after.presence ≡ s.presence)

  -- The events and the presence are those of one update with the tags of the inventory.
  abbrev pub IsUpdated : ScanState → Option Text → InventoryResult → ScanResult → Type 0
  IsUpdated s reader_id result r =
      (w : World) × (r.events
        ≡ (update h s.presence result.tags (some (time w).0) reader_id (time w).1).0)
      × (r.after.presence
          ≡ (update h s.presence result.tags (some (time w).0) reader_id (time w).1).1)

  status_cases : (status : InventoryStatus) → (status ≡ valid) ⊎ (status ≢ valid)
  status_cases valid = inl refl
  status_cases no_response = inr (λ same. cc)
  status_cases malformed = inr (λ same. cc)

  scanned-cases :
      (s : ScanState) (reader_id : Option Text) (outcome : Outcome InventoryResult) (w : World)
      → ((result : InventoryResult) × (outcome ≡ ok result)
          × (result.status ≡ valid)
          × IsUpdated s reader_id result (scanned h s reader_id outcome w).0)
        ⊎ (((result : InventoryResult) → outcome ≡ ok result → result.status ≢ valid)
            × IsUneventful s (scanned h s reader_id outcome w).0)
  unfolding scanned
  scanned-cases s reader_id (raised e) w = inr (λ result same. cc, (refl, refl))
  scanned-cases s reader_id (ok result) w = elim (status_cases result.status) [
    | inl is_valid ↦ inl (
      result,
      refl,
      is_valid,
      (
        (tell_inventory h result s.health (time w).1).1,
        ground (arith, is_valid),
        ground (arith, is_valid),
      ),
    )
    | inr not_valid ↦ inr (
      λ other same. ground (arith, not_valid),
      (ground (arith, not_valid), ground (arith, not_valid)),
    )
  ]

  -- A scan either has a VALID inventory, and its events and the presence after it are those of one
  -- update with the tags of that inventory; or it has none, and then, whether it got another result
  -- or an exception, there is no event and the presence is as it was.
  pub read_inventory_events_cases :
      (s : ScanState) (reader_id : Option Text) (w : World)
      → ((result : InventoryResult) × ((inventory h s.reader (time w).1).0 ≡ ok result)
          × (result.status ≡ valid)
          × IsUpdated s reader_id result (read_inventory_events h s reader_id w).0)
        ⊎ (((result : InventoryResult)
              → (inventory h s.reader (time w).1).0 ≡ ok result
              → result.status ≢ valid)
            × IsUneventful s (read_inventory_events h s reader_id w).0)
  unfolding read_inventory_events
  read_inventory_events_cases s reader_id w = scanned-cases s reader_id _ _
