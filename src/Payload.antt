-- ===== src/Payload.antt =====
-- The payload of an event: the dictionary that `build_event_payload` of src/mvd_edge/app.py builds,
-- with its keys as fields. Its JSON text is represented by the payload itself.
use mvd_edge_agent.Prelude.{Option, List, [], ◌∷◌, Text, codes}
use mvd_edge_agent.Json.{Json, string, nullable}
use mvd_edge_agent.Presence.{EventType, enter, exit}

pub record EventPayload : Type 0 where
  pub edge_event_id : Text
  pub event : EventType
  pub epc : Text
  pub reader_id : Text
  pub customer_id : Option Text
  pub site_id : Option Text
  pub device_id : Option Text
  pub application_profile : Option Text
  pub location_id : Option Text
  pub zone_id : Option Text
  pub timestamp : Text
  pub edge_event_at : Text
  pub edge_send_at : Text

abbrev pub event_name : EventType → Text
event_name enter = codes "ENTER"
event_name exit = codes "EXIT"

-- The dictionary that is posted.
unfoldable pub to_json : EventPayload → List (Text × Json)
to_json p =
    (codes "edge_event_id", string p.edge_event_id)
    ∷ (codes "event", string (event_name p.event))
    ∷ (codes "epc", string p.epc)
    ∷ (codes "reader_id", string p.reader_id)
    ∷ (codes "customer_id", nullable p.customer_id)
    ∷ (codes "site_id", nullable p.site_id)
    ∷ (codes "device_id", nullable p.device_id)
    ∷ (codes "application_profile", nullable p.application_profile)
    ∷ (codes "location_id", nullable p.location_id)
    ∷ (codes "zone_id", nullable p.zone_id)
    ∷ (codes "timestamp", string p.timestamp)
    ∷ (codes "edge_event_at", string p.edge_event_at)
    ∷ (codes "edge_send_at", string p.edge_send_at)
    ∷ []
