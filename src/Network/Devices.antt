-- ===== src/Network/Devices.antt =====
-- Which device is connected, and which is the primary one (src/mvd_edge/health/network.py).
use mvd_edge_agent.Prelude.{
  ◌&&◌, ◌||◌, Option, none, some, List, [], ◌∷◌, if◌then◌else◌, Text, codes, text_eq,
}
use mvd_edge_agent.Dict.{member}
use mvd_edge_agent.Network.Output.{NetworkDevice}

-- `_network_type`
unfoldable pub network_type : Option Text → Option Text
network_type none = none
network_type (some kind) =
    if text_eq kind (codes "ethernet")
    then some (codes "ETHERNET")
    else if text_eq kind (codes "gsm") || text_eq kind (codes "wwan")
    then some (codes "LTE")
    else if text_eq kind (codes "wifi")
    then some (codes "WIFI")
    else none

-- `_first_connected`
unfoldable pub first_connected : List Text → List NetworkDevice → Option NetworkDevice
first_connected kinds [] = none
first_connected kinds (device ∷ devices) =
    if member device.kind kinds && text_eq device.state (codes "connected")
    then some device
    else first_connected kinds devices

-- `next((device for device in devices if device["interface"] == default_interface), None)`
unfoldable pub device_named : Option Text → List NetworkDevice → Option NetworkDevice
device_named none devices = none
device_named (some interface) [] = none
device_named (some interface) (device ∷ devices) =
    if text_eq device.interface interface
    then some device
    else device_named (some interface) devices

-- `a or b`
abbrev pub or_else : {A : Type 0} → Option A → Option A → Option A
or_else (some a) b = some a
or_else none b = b

abbrev pub kind_of : Option NetworkDevice → Option Text
kind_of none = none
kind_of (some device) = some device.kind

abbrev pub interface_of : Option NetworkDevice → Option Text
interface_of none = none
interface_of (some device) = some device.interface

abbrev pub connection_of : Option NetworkDevice → Option Text
connection_of none = none
connection_of (some device) = some device.connection

-- The type of the primary network, and its device.
unfoldable pub primary_of : Option Text → List NetworkDevice → Option Text × Option NetworkDevice
primary_of default_interface devices =
    let ethernet = first_connected (codes "ethernet" ∷ []) devices in
    let lte = first_connected (codes "gsm" ∷ codes "wwan" ∷ []) devices in
    let wifi = first_connected (codes "wifi" ∷ []) devices in
    let default_device = device_named default_interface devices in
    let connected = or_else ethernet (or_else lte wifi) in
    elim (network_type (kind_of default_device)) [
      | some kind ↦ (some kind, default_device)
      | none ↦ (network_type (kind_of connected), connected)
    ]
