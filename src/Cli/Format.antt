-- ===== src/Cli/Format.antt =====
-- How the agent writes numbers and names (src/mvd_edge/app.py).
use mvd_edge_agent.Prelude.{
  ℕ, zero, suc, ◌+◌, ◌-◌, ◌/◌, ◌%◌, Bool, true, false, ◌&&◌, ◌||◌, leb, Option, none, some, [], ◌∷◌,
  ◌++◌, length, Text, codes, upper, upper_char, lower_char, hex_digit, replace_char, ◌==◌,
  if◌then◌else◌, ◌≡◌, refl,
}
use mvd_edge_agent.Numerals.{ℤ, pos, negsuc}
use mvd_edge_agent.Presence.{starts_with}

-- `print(label, value)`
abbrev pub labelled : Text → Text → Text
labelled label value = label ++ (codes " " ++ value)

abbrev pub is_letter : ℕ → Bool
is_letter c = leb b'a' c && leb c b'z' || (leb b'A' c && leb c b'Z')

-- `text.title()`, with whether a letter stands before.
unfoldable pub title_after : Bool → Text → Text
title_after is_inside [] = []
title_after is_inside (c ∷ t) =
    (elim is_inside [ true ↦ lower_char c | false ↦ upper_char c ]) ∷ title_after (is_letter c) t

-- `text.replace(part, by)` for a part that is not empty; the count is of characters to skip.
unfoldable pub replaced : Text → Text → ℕ → Text → Text
replaced part by skip [] = []
replaced part by (suc skip) (c ∷ t) = replaced part by skip t
replaced part by zero (c ∷ t) = elim (starts_with part (c ∷ t)) [
  | true ↦ by ++ replaced part by (length part - 1) t
  | false ↦ c ∷ replaced part by zero t
]

unfoldable pub format_application_profile : Text → Text
format_application_profile value =
    replaced (codes "Rfid") (codes "RFID") zero (title_after false (replace_char b'_' 32 value))

-- Hexadecimal digits, the last one first found.
unfoldable pub hex_onto : ℕ → ℕ → Text → Text
hex_onto zero n tail = tail
hex_onto (suc fuel) n tail =
    let digit = hex_digit (n % 16) in
    let rest = hex_onto fuel (n / 16) (digit ∷ tail) in if n / 16 == 0 then digit ∷ tail else rest

-- The digits of `hex(n)`.
unfoldable pub hex_number : ℕ → Text
unfolding hex_onto
hex_number n = hex_onto (n + 1) n []

abbrev pub zeros : ℕ → Text
zeros zero = []
zeros (suc n) = b'0' ∷ zeros n

abbrev pub padded : ℕ → Text → Text
padded width t = zeros (width - length t) ++ t

-- `f"{n:02X}"`
abbrev pub two_digits : ℕ → Text
two_digits n = upper (padded 2 (hex_number n))

-- `f"{n:04x}"`; a sign counts.
abbrev pub four_digits : ℤ → Text
four_digits (pos n) = padded 4 (hex_number n)
four_digits (negsuc n) = b'-' ∷ padded 3 (hex_number (n + 1))

-- `value or default`
abbrev pub or_text : Option Text → Text → Text
or_text none default = default
or_text (some []) default = default
or_text (some (c ∷ t)) default = c ∷ t

-- The two identities of a USB device.
abbrev pub usb_pair : Option ℤ → Option ℤ → Text → Text
usb_pair none product default = default
usb_pair (some vendor) none default = default
usb_pair (some vendor) (some product) default =
    four_digits vendor ++ (codes ":" ++ four_digits product)

application_profile_title :
    format_application_profile (codes "RFID_ASSET_TRACKING") ≡ codes "RFID Asset Tracking"
unfolding format_application_profile replace_char title_after replaced starts_with
application_profile_title = refl

four_digits_of_product : four_digits (pos 0x7523) ≡ codes "7523"
unfolding hex_number
four_digits_of_product = refl

four_digits_short : four_digits (pos 0x1A) ≡ codes "001a"
unfolding hex_number
four_digits_short = refl
