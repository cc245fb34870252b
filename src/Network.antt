-- ===== src/Network.antt =====
-- The network telemetry (src/mvd_edge/health/network.py).
pub mod Output
pub mod Devices
pub mod Record
pub mod Lines
pub mod Telemetry
use mvd_edge_agent.Prelude.{
  ℕ, Bool, true, false, not, ◌&&◌, ◌||◌, Option, none, some, List, [], ◌∷◌, ◌++◌, if◌then◌else◌,
  Text, codes, text_eq, strip, lower,
}
use mvd_edge_agent.Prelude.Splits.{split, split_max, words, splitlines}
use mvd_edge_agent.Dict.{is_some, member}
use mvd_edge_agent.Outcome.{Outcome, ok, raised, process_error, other_error}
use mvd_edge_agent.Io.{Io, pure, raise, ◌>>=◌}
use mvd_edge_agent.Host.{Host, CompletedProcess}
use mvd_edge_agent.Presence.{starts_with}
use mvd_edge_agent.Network.Devices.{first_connected, interface_of, primary_of}
use mvd_edge_agent.Network.Record.{NetworkTelemetry, unknown_telemetry, telemetry_of}
use mvd_edge_agent.Network.Output.{
  NetworkDevice, find_route, parse_nmcli_devices, parse_wifi_available, find_address,
}

-- `_run`, of a command that finished or did not.
abbrev pub output_of : Outcome CompletedProcess → Outcome (Option Text)
output_of (ok result) = ok (if result.succeeded then some result.stdout else none)
output_of (raised (process_error e)) = ok none
output_of (raised e) = raised e

module _ (h : Host) where
  open h use {World, run}

  unfoldable pub run_command : List Text → ℕ → Io World (Option Text)
  run_command command timeout w = let (result, w') = run command timeout w in (output_of result, w')

  unfoldable pub default_route_interface : Io World (Option Text)
  default_route_interface = do
    output ← run_command (codes "ip" ∷ codes "route" ∷ codes "show" ∷ codes "default" ∷ []) 1000
    pure (elim output [ none ↦ none | some text ↦ find_route (splitlines text) ])

  abbrev pub address_in : Option Text → Outcome (Option Text)
  address_in none = ok none
  address_in (some output) = find_address (splitlines output)

  unfoldable pub nmcli_ip_address : Option Text → Io World (Option Text)
  nmcli_ip_address none = pure none
  nmcli_ip_address (some []) = pure none
  nmcli_ip_address (some (c ∷ interface)) = do
    output ←
        run_command
          (codes "nmcli"
            ∷ codes "-t"
            ∷ codes "-f"
            ∷ codes "IP4.ADDRESS"
            ∷ codes "device"
            ∷ codes "show"
            ∷ (c ∷ interface)
            ∷ [])
          1500
    λ w. (address_in output, w)

  -- The addresses of the four devices, in the order of the fields.
  unfoldable pub addressed :
      Option Text → List NetworkDevice → Option Bool → Io World NetworkTelemetry
  addressed default_interface devices wifi_available = do
    primary_ip ← nmcli_ip_address (interface_of (primary_of default_interface devices).1)
    ethernet_ip ← nmcli_ip_address (interface_of (first_connected (codes "ethernet" ∷ []) devices))
    lte_ip ←
        nmcli_ip_address (interface_of (first_connected (codes "gsm" ∷ codes "wwan" ∷ []) devices))
    wifi_ip ← nmcli_ip_address (interface_of (first_connected (codes "wifi" ∷ []) devices))
    pure (
        telemetry_of default_interface devices wifi_available primary_ip ethernet_ip lte_ip wifi_ip)

  -- `nmcli device status` and `nmcli radio`.
  abbrev pub nmcli_devices : Io World (Option Text)
  nmcli_devices =
      run_command
        (codes "nmcli"
          ∷ codes "-t"
          ∷ codes "-f"
          ∷ codes "DEVICE,TYPE,STATE,CONNECTION"
          ∷ codes "device"
          ∷ codes "status"
          ∷ [])
        1500

  abbrev pub nmcli_radio : Io World (Option Text)
  nmcli_radio =
      run_command
        (codes "nmcli"
          ∷ codes "-t"
          ∷ codes "-f"
          ∷ codes "WIFI-HW,WIFI,WWAN-HW,WWAN"
          ∷ codes "radio"
          ∷ [])
        1500

  unfoldable pub collect_network_telemetry : Io World NetworkTelemetry
  collect_network_telemetry = do
    default_interface ← default_route_interface
    devices_output ← nmcli_devices
    radio_output ← nmcli_radio
    elim devices_output [
      | none ↦ pure (unknown_telemetry default_interface)
      | some output ↦
          addressed default_interface (parse_nmcli_devices output)
            (parse_wifi_available radio_output)
    ]
