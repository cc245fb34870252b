-- ===== src/Scan.antt =====
-- One inventory and what it reports (`read_inventory_events` of src/mvd_edge/app.py).
pub mod Reports
pub mod Keeps
use mvd_edge_agent.Prelude.{ℕ, Option, none, some, List, [], ◌∷◌, Text, codes}
use mvd_edge_agent.Outcome.{Outcome, ok, raised, message}
use mvd_edge_agent.Host.{Host}
use mvd_edge_agent.Idt85.Inventory.{InventoryResult, InventoryStatus, valid, no_response, malformed}
use mvd_edge_agent.Idt85.Device.{Idt85Reader}
use mvd_edge_agent.Reader.{inventory, close_port}
use mvd_edge_agent.Presence.{PresenceState, DetectedEvent, update}
use mvd_edge_agent.Health.{
  HealthState, ReaderState, ready, disconnected, set_reader_state, mark_inventory_success,
  mark_inventory_no_response, mark_inventory_malformed, mark_error, mark_reader_offline,
}

-- What a scan works on.
pub record ScanState : Type 0 where
  pub reader : Idt85Reader
  pub presence : PresenceState
  pub health : Option HealthState

pub record ScanResult : Type 0 where
  pub reader_state : ReaderState
  pub events : List DetectedEvent
  pub message : Text
  pub after : ScanState

abbrev pub status_name : InventoryStatus → Text
status_name valid = codes "VALID"
status_name no_response = codes "NO_RESPONSE"
status_name malformed = codes "MALFORMED"

module _ (h : Host) where
  open h use {World, time}

  -- The report of the inventory to the health state, if there is one.
  unfoldable pub tell_inventory :
      InventoryResult → Option HealthState → World → Option HealthState × World
  tell_inventory result none w = (none, w)
  tell_inventory result (some s) w = elim result.status [
    | valid ↦ let (s', w') = mark_inventory_success h result.tags s w in (some s', w')
    | no_response ↦ (some (mark_inventory_no_response s), w)
    | malformed ↦ (some (mark_inventory_malformed s), w)
  ]

  -- The report of a reader that was lost.
  unfoldable pub tell_lost : Text → Option HealthState → World → Option HealthState × World
  tell_lost error none w = (none, w)
  tell_lost error (some s) w =
      let (s', w') =
        mark_error h (codes "SERIAL_DISCONNECTED") (set_reader_state disconnected s) w in
      (some (mark_reader_offline error s'), w')

  -- The returns of the `try` block, and the handler. The two readings of the clock around the
  -- inventory serve a log line.
  unfoldable pub scanned :
      ScanState → Option Text → Outcome InventoryResult → World → ScanResult × World
  unfolding tell_inventory tell_lost
  scanned s reader_id (ok result) w =
      let (ended, w1) = time w in
      let (health, w2) = tell_inventory result s.health w1 in
      let heard = record s { health = health } in
      elim result.status [
        | valid ↦
            let (now, w3) = time w2 in
            let (events, presence, w4) = update h s.presence result.tags (some now) reader_id w3 in
            (
              record {
                reader_state = ready;
                events = events;
                message = [];
                after = record { reader = s.reader; presence = presence; health = health };
              },
              w4,
            )
        | no_response ↦ (
          record {
            reader_state = ready;
            events = [];
            message = status_name no_response;
            after = heard;
          },
          w2,
        )
        | malformed ↦ (
          record {
            reader_state = ready;
            events = [];
            message = status_name malformed;
            after = heard;
          },
          w2,
        )
      ]
  scanned s reader_id (raised e) w =
      let (closed, w1) = close_port h s.reader w in
      let (health, w2) = tell_lost (message e) s.health w1 in
      (
        record {
          reader_state = disconnected;
          events = [];
          message = message e;
          after = record { reader = closed; presence = s.presence; health = health };
        },
        w2,
      )

  unfoldable pub read_inventory_events : ScanState → Option Text → World → ScanResult × World
  unfolding scanned
  read_inventory_events s reader_id w =
      let (started, w1) = time w in
      let (outcome, w2) = inventory h s.reader w1 in scanned s reader_id outcome w2
