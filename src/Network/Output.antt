-- ===== src/Network/Output.antt =====
-- What the commands of the network telemetry print, parsed (src/mvd_edge/health/network.py).
use mvd_edge_agent.Prelude.{
  Bool, true, false, ◌||◌, Option, none, some, List, [], ◌∷◌, if◌then◌else◌, Text, codes, text_eq,
  strip, lower,
}
use mvd_edge_agent.Prelude.Splits.{split, split_max, words, splitlines}
use mvd_edge_agent.Outcome.{Outcome, ok, raised, other_error}
use mvd_edge_agent.Presence.{starts_with}

-- An entry of the list that `parse_nmcli_devices` builds.
pub record NetworkDevice : Type 0 where
  pub interface : Text
  pub kind : Text
  pub state : Text
  pub connection : Text

-- What stands behind the first `dev`.
unfoldable pub after_dev : List Text → Option Text
after_dev [] = none
after_dev (part ∷ []) = none
after_dev (part ∷ next ∷ parts) =
    if text_eq part (codes "dev") then some next else after_dev (next ∷ parts)

-- The interface of a line of `ip route`.
abbrev pub route_device : List Text → Option Text
route_device [] = none
route_device (part ∷ parts) =
    if text_eq part (codes "default") then after_dev (part ∷ parts) else none

unfoldable pub find_route : List Text → Option Text
find_route [] = none
find_route (line ∷ lines) = elim (route_device (words line)) [
  | some interface ↦ some interface
  | none ↦ find_route lines
]

-- The connection `--` stands for none.
abbrev pub device_of_parts : List Text → Option NetworkDevice
device_of_parts (interface ∷ kind ∷ state ∷ connection ∷ []) = some (record {
  interface = interface;
  kind = kind;
  state = state;
  connection = if text_eq connection (codes "--") then [] else connection;
})
device_of_parts _ = none

abbrev pub is_blank : Text → Bool
is_blank t = text_eq (strip t) []

-- One round of the loop: the device of a line, if it has one.
abbrev pub device_of_line : Text → Option NetworkDevice
device_of_line line = if is_blank line then none else device_of_parts (split_max b':' 3 line)

unfoldable pub devices_of_lines : List Text → List NetworkDevice
devices_of_lines [] = []
devices_of_lines (line ∷ lines) = elim (device_of_line line) [
  | none ↦ devices_of_lines lines
  | some device ↦ device ∷ devices_of_lines lines
]

unfoldable pub parse_nmcli_devices : Text → List NetworkDevice
unfolding devices_of_lines
parse_nmcli_devices output = devices_of_lines (splitlines output)

-- What the first of the four parts says.
abbrev pub wifi_of_parts : List Text → Option Bool
wifi_of_parts (hardware ∷ wifi ∷ wwan_hardware ∷ wwan ∷ []) =
    let wifi_hw = lower (strip hardware) in
    if text_eq wifi_hw (codes "missing")
    then some false
    else if text_eq wifi_hw (codes "enabled") || text_eq wifi_hw (codes "disabled")
    then some true
    else none
wifi_of_parts _ = none

abbrev pub first_of : List Text → Text
first_of [] = []
first_of (line ∷ lines) = line

unfoldable pub parse_wifi_available : Option Text → Option Bool
parse_wifi_available none = none
parse_wifi_available (some output) =
    if is_blank output
    then none
    else wifi_of_parts (split b':' (strip (first_of (splitlines output))))

-- `line.split(":", 1)[1].split("/", 1)[0].strip()`, which raises where the line has no colon.
abbrev pub address_of_line : Text → Outcome Text
address_of_line line = elim (split_max b':' 1 line) [
  | [] ↦ raised (other_error (codes "list index out of range"))
  | name ∷ values ↦ elim values [
    | [] ↦ raised (other_error (codes "list index out of range"))
    | value ∷ more ↦ ok (strip (first_of (split_max b'/' 1 value)))
  ]
]

unfoldable pub find_address : List Text → Outcome (Option Text)
find_address [] = ok none
find_address (line ∷ lines) = elim (starts_with (codes "IP4.ADDRESS") line) [
  | false ↦ find_address lines
  | true ↦ elim (address_of_line line) [
    | raised e ↦ raised e
    | ok [] ↦ find_address lines
    | ok (c ∷ value) ↦ ok (some (c ∷ value))
  ]
]
