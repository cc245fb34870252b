-- ===== src/Numerals.antt =====
-- Python's `int(text, base)` for a text without white space around it, on ASCII characters.
use mvd_edge_agent.Prelude.{
  ℕ, zero, suc, ◌+◌, ◌-◌, ◌*◌, Bool, true, false, ◌&&◌, ◌||◌, ◌==◌, leb, ltb, Option, none, some,
  [], ◌∷◌, Text, if◌then◌else◌,
}

-- Python's `int`.
pub data ℤ : Type 0 where
  pos : ℕ → ℤ
  negsuc : ℕ → ℤ

abbrev pub negated : ℕ → ℤ
negated zero = pos zero
negated (suc n) = negsuc n

-- `z < n`
abbrev pub is_below : ℤ → ℕ → Bool
is_below (pos m) n = ltb m n
is_below (negsuc m) n = true

-- `z > n`
abbrev pub is_above : ℤ → ℕ → Bool
is_above (pos m) n = ltb n m
is_above (negsuc m) n = false

-- The natural number that an integer is, with 0 for a negative one.
abbrev pub to_nat : ℤ → ℕ
to_nat (pos n) = n
to_nat (negsuc n) = 0

abbrev pub digit_value : ℕ → Option ℕ
digit_value c =
    if leb b'0' c && leb c b'9'
    then some (c - 48)
    else if leb b'a' c && leb c b'z'
    then some (c - 87)
    else if leb b'A' c && leb c b'Z'
    then some (c - 55)
    else none

-- The value of a digit that the base has.
abbrev pub digit_in : ℕ → ℕ → Option ℕ
digit_in base c = elim (digit_value c) [
  | none ↦ none
  | some d ↦ if ltb d base then some d else none
]

-- The digits that are left, with single underscores between them.
unfoldable pub read_digits : ℕ → ℕ → Bool → Text → Option ℕ
read_digits base acc after_digit [] = if after_digit then some acc else none
read_digits base acc after_digit (c ∷ t) = elim (c == b'_') [
  | true ↦ elim after_digit [ true ↦ read_digits base acc false t | false ↦ none ]
  | false ↦ elim (digit_in base c) [
    | none ↦ none
    | some d ↦ read_digits base (acc * base + d) true t
  ]
]

-- One underscore may stand behind a prefix.
abbrev pub skip_underscore : Text → Text
skip_underscore [] = []
skip_underscore (c ∷ t) = if c == b'_' then t else c ∷ t

-- The base of a prefix's letter.
abbrev pub prefix_base : ℕ → Option ℕ
prefix_base c =
    if c == b'x' || c == b'X'
    then some 16
    else if c == b'o' || c == b'O'
    then some 8
    else if c == b'b' || c == b'B'
    then some 2
    else none

abbrev pub only_zero : Option ℕ → Option ℕ
only_zero none = none
only_zero (some n) = if n == 0 then some 0 else none

-- With base 0 the prefix gives the base; without one, only zero may begin with a zero.
abbrev pub unsigned_any : Text → Option ℕ
unsigned_any (c ∷ x ∷ t) =
    if c == b'0'
    then (elim (prefix_base x) [
      | some base ↦ read_digits base 0 false (skip_underscore t)
      | none ↦ only_zero (read_digits 10 0 false (c ∷ x ∷ t))
    ])
    else read_digits 10 0 false (c ∷ x ∷ t)
unsigned_any t = read_digits 10 0 false t

-- Base 16 allows its prefix.
abbrev pub unsigned_hex : Text → Option ℕ
unsigned_hex (c ∷ x ∷ t) =
    if c == b'0' && (x == b'x' || x == b'X')
    then read_digits 16 0 false (skip_underscore t)
    else read_digits 16 0 false (c ∷ x ∷ t)
unsigned_hex t = read_digits 16 0 false t

abbrev pub positive_of : Option ℕ → Option ℤ
positive_of none = none
positive_of (some n) = some (pos n)

abbrev pub negative_of : Option ℕ → Option ℤ
negative_of none = none
negative_of (some n) = some (negated n)

-- A sign and what follows it.
abbrev pub signed : (Text → Option ℕ) → Text → Option ℤ
signed unsigned [] = none
signed unsigned (c ∷ t) =
    if c == b'-'
    then negative_of (unsigned t)
    else if c == b'+'
    then positive_of (unsigned t)
    else positive_of (unsigned (c ∷ t))

unfoldable pub int_of_decimal : Text → Option ℤ
int_of_decimal t = signed (λ digits. read_digits 10 0 false digits) t

-- `int(text, 0)`
unfoldable pub int_of_any : Text → Option ℤ
int_of_any t = signed (λ digits. unsigned_any digits) t

-- `int(text, 16)`
unfoldable pub int_of_hex : Text → Option ℤ
int_of_hex t = signed (λ digits. unsigned_hex digits) t
