-- ===== src/Config/Values.antt =====
-- The parsing of the values of the configuration (src/mvd_edge/config.py).
use mvd_edge_agent.Prelude.{
  ℕ, Bool, true, false, ◌&&◌, ◌||◌, not, Option, none, some, [], ◌∷◌, ◌++◌, length, take, ◌-◌,
  if◌then◌else◌, Text, codes, strip, upper, lower, ◌==◌,
}
use mathlib.Core.List.{reverse}
use mvd_edge_agent.Dict.{member}
use mvd_edge_agent.Outcome.{Outcome, ok, raised, ◌>>=◌, runtime_error, value_error}
use mvd_edge_agent.Presence.{starts_with}
use mvd_edge_agent.Idt85.Device.{is_supported_method}
use mvd_edge_agent.Cloud.{decimal}
use mvd_edge_agent.Numerals.{ℤ, is_below, is_above, to_nat, int_of_decimal, int_of_any, int_of_hex}

-- Python's `float`: `float(text)`, `<=`, `<`, the number 0, `str(x)` and `f"{x:g}"`.
pub record Floats : Type 1 where
  pub Real : Type 0
  pub of_text : Text → Option Real
  pub at_most : Real → Real → Bool
  pub less : Real → Real → Bool
  pub zero_point : Real
  pub text_of : Real → Text
  pub general : Real → Text

abbrev pub or_value_error : {A : Type 0} → Text → Option A → Outcome A
or_value_error why none = raised (value_error why)
or_value_error why (some a) = ok a

-- `if not value.strip()`
abbrev pub unless_blank : Text → Text → Outcome Text
unless_blank name [] = raised (runtime_error (name ++ codes " is required"))
unless_blank name (c ∷ t) = ok (c ∷ t)

unfoldable pub required_string : Text → Option Text → Outcome Text
required_string name none = raised (runtime_error (name ++ codes " is required"))
required_string name (some value) = unless_blank name (strip value)

-- An integer that is not below the minimum.
abbrev pub at_least : Text → ℕ → ℤ → Outcome ℤ
at_least name minimum parsed =
    if is_below parsed minimum
    then raised (value_error (name ++ (codes " must be at least " ++ decimal minimum)))
    else ok parsed

unfoldable pub parse_int : Text → Option Text → Option ℕ → Outcome ℤ
parse_int name value minimum = do
  raw ← required_string name value
  parsed ← or_value_error (name ++ codes " must be an integer") (int_of_decimal raw)
  elim minimum [ none ↦ ok parsed | some bound ↦ at_least name bound parsed ]

-- The two lists of names.
abbrev pub bool_of : Text → Text → Outcome Bool
bool_of name normalized =
    if member normalized (codes "1" ∷ codes "true" ∷ codes "yes" ∷ codes "on" ∷ [])
    then ok true
    else if member normalized (codes "0" ∷ codes "false" ∷ codes "no" ∷ codes "off" ∷ [])
    then ok false
    else raised (value_error (name ++ codes " must be true or false"))

unfoldable pub parse_bool : Text → Option Text → Outcome Bool
parse_bool name value = do raw ← required_string name value; bool_of name (lower raw)

-- `parsed < 0 or parsed > bound`
abbrev pub within : Text → ℕ → ℤ → Outcome ℕ
within why bound parsed =
    if is_below parsed 0 || is_above parsed bound
    then raised (value_error why)
    else ok (to_nat parsed)

unfoldable pub parse_reader_address : Text → Option Text → Outcome ℕ
parse_reader_address name value = do
  raw ← required_string name value
  parsed ← or_value_error (name ++ codes " must be an integer from 0x00 to 0xFF") (int_of_any raw)
  within (name ++ codes " must be between 0x00 and 0xFF") 0xFF parsed

-- `value.strip()`, or none if nothing is left.
abbrev pub stripped : Text → Option Text
stripped value = elim (strip value) [ [] ↦ none | c ∷ t ↦ some (c ∷ t) ]

unfoldable pub optional_string : Option Text → Option Text
optional_string none = none
optional_string (some value) = stripped value

abbrev pub usb_id_of : Text → Text → Outcome (Option ℕ)
usb_id_of name raw = do
  parsed ←
      or_value_error (name ++ codes " must be a hexadecimal USB ID such as 10c4") (int_of_hex raw)
  id ← within (name ++ codes " must be between 0000 and ffff") 0xFFFF parsed
  ok (some id)

unfoldable pub optional_usb_id : Text → Option Text → Outcome (Option ℕ)
unfolding optional_string
optional_usb_id name value = elim (optional_string value) [
  | none ↦ ok none
  | some raw ↦ usb_id_of name raw
]

-- `parsed not in SUPPORTED_VERIFY_METHODS`
abbrev pub if_supported : Text → Text → Outcome Text
if_supported name parsed =
    if is_supported_method parsed
    then ok parsed
    else raised (value_error (name ++ codes " must be one of: AUTO, READER_INFO, WORK_MODE"))

unfoldable pub parse_verify_method : Text → Option Text → Outcome Text
parse_verify_method name value = do raw ← required_string name value; if_supported name (upper raw)

-- `text.endswith(suffix)`
abbrev pub ends_with : Text → Text → Bool
ends_with suffix text = starts_with (reverse suffix) (reverse text)

-- What is left of a reversed text without the slashes at its beginning.
unfoldable pub without_slashes : Text → Text
without_slashes [] = []
without_slashes (c ∷ t) = elim (c == b'/') [ true ↦ without_slashes t | false ↦ c ∷ t ]

unfoldable pub default_heartbeat_url : Text → Text
default_heartbeat_url rfid_api_url =
    let event_path = codes "/api/v1/rfid/events" in
    if ends_with event_path rfid_api_url
    then take (length rfid_api_url - length event_path) rfid_api_url
      ++ codes "/api/v1/edge/heartbeat"
    else reverse (without_slashes (reverse rfid_api_url)) ++ codes "/api/v1/edge/heartbeat"

module _ (f : Floats) where
  open f use {Real, of_text, at_most, less, zero_point, general}

  -- A number that is not below the minimum, or not even at it.
  abbrev pub above : Text → Real → Bool → Real → Outcome Real
  above name minimum exclusive parsed =
      if exclusive && at_most parsed minimum
      then raised (value_error (name ++ (codes " must be greater than " ++ general minimum)))
      else if not exclusive && less parsed minimum
      then raised (value_error (name ++ (codes " must be at least " ++ general minimum)))
      else ok parsed

  unfoldable pub parse_float : Text → Option Text → Option Real → Bool → Outcome Real
  parse_float name value minimum exclusive = do
    raw ← required_string name value
    parsed ← or_value_error (name ++ codes " must be a number") (of_text raw)
    elim minimum [ none ↦ ok parsed | some bound ↦ above name bound exclusive parsed ]

  abbrev pub unless_empty : Option Text → Option Text
  unless_empty none = none
  unless_empty (some []) = none
  unless_empty (some (c ∷ t)) = some (c ∷ t)

  abbrev pub if_positive : Text → Real → Outcome (Option Real)
  if_positive name parsed =
      if at_most parsed zero_point
      then raised (value_error (name ++ codes " must be positive"))
      else ok (some parsed)

  unfoldable pub optional_positive_float : Text → Option Text → Outcome (Option Real)
  optional_positive_float name value = elim (unless_empty value) [
    | none ↦ ok none
    | some text ↦ parse_float name (some text) none false >>= if_positive name
  ]
