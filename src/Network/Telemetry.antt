-- ===== src/Network/Telemetry.antt =====
-- What the telemetry says of one connection agrees with the rest of it
-- (src/mvd_edge/health/network.py).
use mvd_edge_agent.Prelude.{
  ◌≡◌, ◌↔◌, ◌⊎◌, refl, Bool, true, Option, none, some, List, [], ◌∷◌, arith, Text, codes, text_eq,
  text_eq_iff, All,
}
use mvd_edge_agent.Dict.{is_some, member}
use mvd_edge_agent.Outcome.{Outcome, ok, raised, HoldsOf}
use mvd_edge_agent.Io.{Io, pure, ◌>>=◌}
use mvd_edge_agent.Host.{Host}
use mvd_edge_agent.Network.Output.{NetworkDevice, parse_wifi_available, parse_nmcli_devices}
use mvd_edge_agent.Network.Devices.{
  network_type, kind_of, interface_of, first_connected, or_else, primary_of,
}
use mvd_edge_agent.Network.Record.{NetworkTelemetry, telemetry_of, unknown_telemetry}
use mvd_edge_agent.Network.{
  nmcli_devices, nmcli_radio, default_route_interface, nmcli_ip_address, addressed,
  collect_network_telemetry,
}

-- A connection is up exactly if it has an interface, then it has a name, and only then an address.
pub record IsLink (connected : Option Bool) (interface name address : Option Text) : Type 0 where
  pub up_iff : (connected ≡ some true) ↔ (is_some interface ≡ true)
  pub named : is_some name ≡ is_some interface
  pub reachable : is_some address ≡ true → connected ≡ some true

pub record IsConsistent (t : NetworkTelemetry) : Type 0 where
  pub ethernet :
      IsLink t.ethernet_connected t.ethernet_interface t.ethernet_connection_name
        t.ethernet_ip_address
  pub lte : IsLink t.lte_connected t.lte_interface t.lte_connection_name t.lte_ip_address
  pub wifi : IsLink t.wifi_connected t.wifi_interface t.wifi_connection_name t.wifi_ip_address
  pub connected_iff : (t.network_connected ≡ some true) ↔ (
      (t.ethernet_connected ≡ some true)
      ⊎ (t.lte_connected ≡ some true)
      ⊎ (t.wifi_connected ≡ some true))
  pub typed : t.network_connected ≡ some true → is_some t.primary_network_type ≡ true
  pub placed : t.network_connected ≡ some true → is_some t.primary_interface ≡ true
  pub reached : is_some t.primary_ip_address ≡ true → is_some t.primary_connection_name ≡ true

-- A call whose value, where it returns one, has a property.
pub record Yields {A W : Type 0} (P : A → Type 0) (called : Outcome A × W) : Type 0 where
  pub holds : HoldsOf P called.0

module _ {A B W : Type 0} (P : B → Type 0) (f : A → Io W B) where
  Yields-outcome :
      (called : Outcome A × W)
      → ((a : A) (w : W) → called.0 ≡ ok a → Yields P (f a w))
      → Yields P (elim called.0 as (λ _. Outcome B × W) [
        | ok a ↦ f a called.1
        | raised e ↦ (raised e, called.1)
      ])
  Yields-outcome (ok a, w) each = each a w refl
  Yields-outcome (raised e, w) each = record { holds = tt }

  Yields-bind :
      (m : Io W A) (w : W)
      → ((a : A) (w' : W) → (m w).0 ≡ ok a → Yields P (f a w'))
      → Yields P ((m >>= f) w)
  Yields-bind m w each = Yields-outcome (m w) each

-- A kind that the telemetry has a name for.
abbrev pub IsKnown : Text → Type 0
IsKnown kind = is_some (network_type (some kind)) ≡ true

member-IsKnown :
    (kinds : List Text) (kind : Text) → All IsKnown kinds → member kind kinds ≡ true → IsKnown kind
unfolding member
member-IsKnown [] kind known there = cc
member-IsKnown (k ∷ kinds) kind known there =
    ground (arith, known, there, text_eq_iff k kind, member-IsKnown kinds kind known.1)

-- A device that `first_connected` finds is of one of the kinds.
first_connected-IsKnown :
    (kinds : List Text) (devices : List NetworkDevice)
    → All IsKnown kinds
    → is_some (first_connected kinds devices) ≡ true
    → is_some (network_type (kind_of (first_connected kinds devices))) ≡ true
unfolding first_connected
first_connected-IsKnown kinds [] known there = cc
first_connected-IsKnown kinds (device ∷ devices) known there = ground (
  arith,
  there,
  member-IsKnown kinds device.kind known,
  first_connected-IsKnown kinds devices known,
)

primary_of-typed :
    (default_interface : Option Text) (devices : List NetworkDevice)
    → is_some (
        or_else (first_connected (codes "ethernet" ∷ []) devices) (
          or_else
            (first_connected (codes "gsm" ∷ codes "wwan" ∷ []) devices)
            (first_connected (codes "wifi" ∷ []) devices)))
      ≡ true
    → (is_some (primary_of default_interface devices).0 ≡ true)
      × (is_some (interface_of (primary_of default_interface devices).1) ≡ true)
unfolding primary_of network_type text_eq
primary_of-typed default_interface devices connected = ground (
  arith,
  connected,
  first_connected-IsKnown (codes "ethernet" ∷ []) devices (refl, tt),
  first_connected-IsKnown (codes "gsm" ∷ codes "wwan" ∷ []) devices (refl, (refl, tt)),
  first_connected-IsKnown (codes "wifi" ∷ []) devices (refl, tt),
)

-- An address is there for an interface alone.
abbrev pub IsOf : Option Text → Option NetworkDevice → Type 0
IsOf address device = is_some address ≡ true → is_some (interface_of device) ≡ true

telemetry_of-IsConsistent :
    (default_interface : Option Text) (devices : List NetworkDevice) (wifi_available : Option Bool)
    (primary_ip ethernet_ip lte_ip wifi_ip : Option Text)
    → IsOf primary_ip (primary_of default_interface devices).1
    → IsOf ethernet_ip (first_connected (codes "ethernet" ∷ []) devices)
    → IsOf lte_ip (first_connected (codes "gsm" ∷ codes "wwan" ∷ []) devices)
    → IsOf wifi_ip (first_connected (codes "wifi" ∷ []) devices)
    → IsConsistent (
        telemetry_of default_interface devices wifi_available primary_ip ethernet_ip lte_ip wifi_ip)
telemetry_of-IsConsistent default_interface devices wifi_available primary_ip ethernet_ip lte_ip
      wifi_ip p e l w =
    record {
      ethernet = ground (arith, e);
      lte = ground (arith, l);
      wifi = ground (arith, w);
      connected_iff = ground arith;
      typed = ground (arith, primary_of-typed default_interface devices);
      placed = ground (arith, primary_of-typed default_interface devices);
      reached = ground (arith, p);
    }

unknown-IsConsistent :
    (default_interface : Option Text) → IsConsistent (unknown_telemetry default_interface)
unknown-IsConsistent default_interface = ground arith

module _ (h : Host) where
  open h use {World}

  nmcli_ip_address-IsOf :
      (device : Option NetworkDevice) (w w' : World) (address : Option Text)
      → (nmcli_ip_address h (interface_of device) w).0 ≡ ok address
      → IsOf address device
  unfolding nmcli_ip_address
  nmcli_ip_address-IsOf none w w' address found = ground (arith, found)
  nmcli_ip_address-IsOf (some device) w w' address found = λ there. refl

  addressed-IsConsistent :
      (default_interface : Option Text) (devices : List NetworkDevice)
      (wifi_available : Option Bool) (w : World)
      → Yields IsConsistent (addressed h default_interface devices wifi_available w)
  unfolding addressed
  addressed-IsConsistent default_interface devices wifi_available w =
      let primary = (primary_of default_interface devices).1 in
      let ethernet = first_connected (codes "ethernet" ∷ []) devices in
      let lte = first_connected (codes "gsm" ∷ codes "wwan" ∷ []) devices in
      let wifi = first_connected (codes "wifi" ∷ []) devices in
      let ask = λ (device : Option NetworkDevice). nmcli_ip_address h (interface_of device) in
      let told = λ (p e l r : Option Text).
        pure {W = World} (telemetry_of default_interface devices wifi_available p e l r) in
      let with_wifi = λ (p e l : Option Text). ask wifi >>= told p e l in
      let with_lte = λ (p e : Option Text). ask lte >>= with_wifi p e in
      let with_ethernet = λ (p : Option Text). ask ethernet >>= with_lte p in
      Yields-bind IsConsistent with_ethernet (ask primary) w (λ primary_ip w1 p.
        Yields-bind IsConsistent (with_lte primary_ip) (ask ethernet) w1 (λ ethernet_ip w2 e.
          Yields-bind IsConsistent (with_wifi primary_ip ethernet_ip) (ask lte) w2 (λ lte_ip w3 l.
            Yields-bind IsConsistent (told primary_ip ethernet_ip lte_ip) (ask wifi) w3
              (λ wifi_ip w4 r. record {
                holds =
                    telemetry_of-IsConsistent default_interface devices wifi_available primary_ip
                      ethernet_ip lte_ip wifi_ip (nmcli_ip_address-IsOf primary w w1 primary_ip p)
                      (nmcli_ip_address-IsOf ethernet w1 w2 ethernet_ip e)
                      (nmcli_ip_address-IsOf lte w2 w3 lte_ip l)
                      (nmcli_ip_address-IsOf wifi w3 w4 wifi_ip r);
              }))))

  of_devices-IsConsistent :
      (default_interface : Option Text) (devices_output radio_output : Option Text) (w : World)
      → Yields IsConsistent (
          (elim devices_output as (λ _. Io World NetworkTelemetry) [
            | none ↦ pure (unknown_telemetry default_interface)
            | some output ↦
                addressed h default_interface
                  (parse_nmcli_devices output)
                  (parse_wifi_available radio_output)
          ])
            w)
  of_devices-IsConsistent default_interface none radio_output w = record {
    holds = unknown-IsConsistent default_interface;
  }
  of_devices-IsConsistent default_interface (some output) radio_output w =
      addressed-IsConsistent default_interface (parse_nmcli_devices output)
        (parse_wifi_available radio_output) w

  -- Where the telemetry is collected: each of the three connections is up exactly if it has an
  -- interface, only then it has an address; the network is connected exactly if one of the three is,
  -- and then it has a primary type and a primary interface.
  pub collect_network_telemetry-IsConsistent :
      (w : World) → Yields IsConsistent (collect_network_telemetry h w)
  unfolding collect_network_telemetry
  collect_network_telemetry-IsConsistent w =
      let told = λ (default_interface devices_output radio_output : Option Text).
        elim devices_output as (λ _. Io World NetworkTelemetry) [
          | none ↦ pure (unknown_telemetry default_interface)
          | some output ↦
              addressed h default_interface (parse_nmcli_devices output)
                (parse_wifi_available radio_output)
        ] in
      let with_radio = λ (default_interface devices_output : Option Text).
        nmcli_radio h >>= told default_interface devices_output in
      let with_devices =
        λ (default_interface : Option Text). nmcli_devices h >>= with_radio default_interface in
      Yields-bind IsConsistent with_devices (default_route_interface h) w
        (λ default_interface w1 e1.
          Yields-bind IsConsistent (with_radio default_interface) (nmcli_devices h) w1
            (λ devices_output w2 e2.
              Yields-bind IsConsistent (told default_interface devices_output) (nmcli_radio h) w2
                (λ radio_output w3 e3.
                  of_devices-IsConsistent default_interface devices_output radio_output w3)))
