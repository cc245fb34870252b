-- ===== src/Network/Record.antt =====
-- The telemetry and how it is made of the devices (src/mvd_edge/health/network.py).
use mvd_edge_agent.Prelude.{Bool, ◌||◌, Option, none, some, List, [], ◌∷◌, Text, codes}
use mvd_edge_agent.Dict.{is_some}
use mvd_edge_agent.Network.Output.{NetworkDevice}
use mvd_edge_agent.Network.Devices.{
  first_connected, or_else, interface_of, connection_of, primary_of,
}

pub record NetworkTelemetry : Type 0 where
  pub network_connected : Option Bool
  pub primary_network_type : Option Text
  pub primary_interface : Option Text
  pub primary_connection_name : Option Text
  pub primary_ip_address : Option Text
  pub ethernet_connected : Option Bool
  pub ethernet_interface : Option Text
  pub ethernet_connection_name : Option Text
  pub ethernet_ip_address : Option Text
  pub lte_connected : Option Bool
  pub lte_interface : Option Text
  pub lte_connection_name : Option Text
  pub lte_ip_address : Option Text
  pub wifi_available : Option Bool
  pub wifi_connected : Option Bool
  pub wifi_interface : Option Text
  pub wifi_connection_name : Option Text
  pub wifi_ip_address : Option Text
  pub default_route_interface : Option Text

-- `NetworkTelemetry(default_route_interface=…)`
abbrev pub unknown_telemetry : Option Text → NetworkTelemetry
unknown_telemetry default_interface = record {
  network_connected = none;
  primary_network_type = none;
  primary_interface = none;
  primary_connection_name = none;
  primary_ip_address = none;
  ethernet_connected = none;
  ethernet_interface = none;
  ethernet_connection_name = none;
  ethernet_ip_address = none;
  lte_connected = none;
  lte_interface = none;
  lte_connection_name = none;
  lte_ip_address = none;
  wifi_available = none;
  wifi_connected = none;
  wifi_interface = none;
  wifi_connection_name = none;
  wifi_ip_address = none;
  default_route_interface = default_interface;
}

-- The telemetry of the devices, with the addresses that were asked for.
abbrev pub telemetry_of :
    Option Text
    → List NetworkDevice
    → Option Bool
    → Option Text
    → Option Text
    → Option Text
    → Option Text
    → NetworkTelemetry
telemetry_of default_interface devices wifi_available primary_ip ethernet_ip lte_ip wifi_ip =
    let ethernet = first_connected (codes "ethernet" ∷ []) devices in
    let lte = first_connected (codes "gsm" ∷ codes "wwan" ∷ []) devices in
    let wifi = first_connected (codes "wifi" ∷ []) devices in
    let (primary_type, primary) = primary_of default_interface devices in
    record {
      network_connected = some (is_some ethernet || (is_some lte || is_some wifi));
      primary_network_type = primary_type;
      primary_interface = or_else (interface_of primary) default_interface;
      primary_connection_name = connection_of primary;
      primary_ip_address = primary_ip;
      ethernet_connected = some (is_some ethernet);
      ethernet_interface = interface_of ethernet;
      ethernet_connection_name = connection_of ethernet;
      ethernet_ip_address = ethernet_ip;
      lte_connected = some (is_some lte);
      lte_interface = interface_of lte;
      lte_connection_name = connection_of lte;
      lte_ip_address = lte_ip;
      wifi_available = wifi_available;
      wifi_connected = some (is_some wifi);
      wifi_interface = interface_of wifi;
      wifi_connection_name = connection_of wifi;
      wifi_ip_address = wifi_ip;
      default_route_interface = default_interface;
    }
