-- ===== src/Heartbeat.antt =====
-- The heartbeat: `HealthState.payload` of src/mvd_edge/health/state.py, `NetworkTelemetry.payload` of
-- src/mvd_edge/health/network.py, `build_heartbeat_payload` and `send_heartbeat` of src/mvd_edge/app.py.
use mvd_edge_agent.Prelude.{ℕ, Bool, Option, none, some, List, [], ◌∷◌, Text, codes}
use mvd_edge_agent.Dict.{Dict, put}
use mvd_edge_agent.Outcome.{Outcome, ok, raised}
use mvd_edge_agent.Json.{Json, Items, nil, cons, null, boolean, number, string, array, nullable}
use mvd_edge_agent.Host.{Host}
use mvd_edge_agent.Config.{EdgeConfig}
use mvd_edge_agent.Queue.{EventQueue, pending_count}
use mvd_edge_agent.Health.{
  HealthState, ReaderState, ReaderHealthStatus, disconnected, connecting, ready, config_error,
  healthy, degraded, offline, reconnecting,
}
use mvd_edge_agent.Network.Record.{NetworkTelemetry}
use mvd_edge_agent.Network.{collect_network_telemetry}
use mvd_edge_agent.Cloud as Cloud
use mvd_edge_agent.Cloud.{CloudTransport, DeliveryResult}

abbrev pub reader_state_name : ReaderState → Text
reader_state_name disconnected = codes "DISCONNECTED"
reader_state_name connecting = codes "CONNECTING"
reader_state_name ready = codes "READY"
reader_state_name config_error = codes "CONFIG_ERROR"

abbrev pub health_status_name : ReaderHealthStatus → Text
health_status_name healthy = codes "HEALTHY"
health_status_name degraded = codes "DEGRADED"
health_status_name offline = codes "OFFLINE"
health_status_name reconnecting = codes "RECONNECTING"

abbrev pub text_items : List Text → Items
text_items [] = nil
text_items (t ∷ ts) = cons (string t) (text_items ts)

abbrev pub nullable_texts : Option (List Text) → Json
nullable_texts none = null
nullable_texts (some ts) = array (text_items ts)

abbrev pub nullable_bool : Option Bool → Json
nullable_bool none = null
nullable_bool (some b) = boolean b

-- `NetworkTelemetry.payload`
abbrev pub telemetry_payload : NetworkTelemetry → Dict Json
telemetry_payload t =
    (codes "network_connected", nullable_bool t.network_connected)
    ∷ (codes "primary_network_type", nullable t.primary_network_type)
    ∷ (codes "primary_interface", nullable t.primary_interface)
    ∷ (codes "primary_connection_name", nullable t.primary_connection_name)
    ∷ (codes "primary_ip_address", nullable t.primary_ip_address)
    ∷ (codes "ethernet_connected", nullable_bool t.ethernet_connected)
    ∷ (codes "ethernet_interface", nullable t.ethernet_interface)
    ∷ (codes "ethernet_connection_name", nullable t.ethernet_connection_name)
    ∷ (codes "ethernet_ip_address", nullable t.ethernet_ip_address)
    ∷ (codes "lte_connected", nullable_bool t.lte_connected)
    ∷ (codes "lte_interface", nullable t.lte_interface)
    ∷ (codes "lte_connection_name", nullable t.lte_connection_name)
    ∷ (codes "lte_ip_address", nullable t.lte_ip_address)
    ∷ (codes "wifi_available", nullable_bool t.wifi_available)
    ∷ (codes "wifi_connected", nullable_bool t.wifi_connected)
    ∷ (codes "wifi_interface", nullable t.wifi_interface)
    ∷ (codes "wifi_connection_name", nullable t.wifi_connection_name)
    ∷ (codes "wifi_ip_address", nullable t.wifi_ip_address)
    ∷ (codes "default_route_interface", nullable t.default_route_interface)
    ∷ []

-- `payload.update(other)`
unfoldable pub update_all : Dict Json → Dict Json → Dict Json
update_all payload [] = payload
update_all payload ((key, value) ∷ others) = update_all (put key value payload) others

module _ (h : Host) (agent_version : Text) where
  open h use {World, utc_timestamp}

  -- `HealthState.payload`, with the configuration that `build_heartbeat_payload` passes.
  unfoldable pub health_payload : EdgeConfig ℕ → ℕ → HealthState → World → Dict Json × World
  health_payload config queue_pending s w =
      let (now, w') = utc_timestamp w in
      (
        (codes "customer_id", string config.customer_id)
            ∷ (codes "site_id", string config.site_id)
            ∷ (codes "location_id", string config.location_id)
            ∷ (codes "zone_id", string config.zone_id)
            ∷ (codes "application_profile", string config.application_profile)
            ∷ (codes "device_id", string config.device_id)
            ∷ (codes "device_type", string config.device_type)
            ∷ (codes "reader_id", string config.reader_id)
            ∷ (codes "agent_version", string agent_version)
            ∷ (codes "reader_state", string (reader_state_name s.reader_state))
            ∷ (codes "serial_port", string config.serial_port)
            ∷ (codes "queue_pending", number queue_pending)
            ∷ (codes "last_reader_activity_at", nullable s.last_reader_activity_at)
            ∷ (codes "last_event_at", nullable s.last_event_at)
            ∷ (codes "last_cloud_delivery_at", nullable s.last_cloud_delivery_at)
            ∷ (codes "reported_at", string now)
            ∷ (codes "last_error", nullable s.last_error)
            ∷ (codes "last_error_at", nullable s.last_error_at)
            ∷ (codes "reader_connected", boolean s.reader_connected)
            ∷ (codes "inventory_responding", boolean s.inventory_responding)
            ∷ (codes "last_successful_inventory_at", nullable s.last_successful_inventory_at)
            ∷ (codes "last_inventory_epcs", nullable_texts s.last_inventory_epcs)
            ∷ (codes "last_tag_seen_at", nullable s.last_tag_seen_at)
            ∷ (codes "last_epc_seen", nullable s.last_epc_seen)
            ∷ (codes "consecutive_no_response_count", number s.consecutive_no_response_count)
            ∷ (codes "malformed_response_count", number s.malformed_response_count)
            ∷ (codes "reconnect_count", number s.reconnect_count)
            ∷ (codes "last_reader_error", nullable s.last_reader_error)
            ∷ (codes "health_status", string (health_status_name s.health_status))
            ∷ (codes "rfid_health_status", string (health_status_name s.health_status))
            ∷ (codes "reader_error_summary", nullable s.last_reader_error)
            ∷ [],
        w',
      )

  -- The telemetry is left out where collecting it raises.
  abbrev pub with_telemetry : Dict Json → Outcome NetworkTelemetry → Dict Json
  with_telemetry payload (ok telemetry) = update_all payload (telemetry_payload telemetry)
  with_telemetry payload (raised e) = payload

  unfoldable pub build_heartbeat_payload :
      EdgeConfig ℕ → EventQueue → HealthState → World → Dict Json × World
  build_heartbeat_payload config queue s w =
      let (payload, w1) = health_payload config (pending_count queue) s w in
      let (telemetry, w2) = collect_network_telemetry h w1 in (with_telemetry payload telemetry, w2)

  -- `send_heartbeat` of src/mvd_edge/app.py.
  unfoldable pub send_heartbeat :
      EdgeConfig ℕ
      → CloudTransport
      → EventQueue
      → HealthState
      → World
      → Outcome DeliveryResult × World
  send_heartbeat config transport queue s w =
      let (payload, w') = build_heartbeat_payload config queue s w in
      Cloud.send_heartbeat h transport payload w'
