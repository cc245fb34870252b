-- ===== src/Idt85/Command.antt =====
-- The commands to the reader and its short answers (src/mvd_edge/adapters/idt85.py).
pub mod Frame
use mvd_edge_agent.Prelude.{
  ℕ, ◌+◌, ◌/◌, ◌%◌, ◌≡◌, refl, Bool, true, false, ◌&&◌, Option, none, some, List, [], ◌∷◌, ◌++◌,
  ltb, ◌==◌, if◌then◌else◌, length, get_or, Text, codes, hex,
}
use mvd_edge_agent.Outcome.{Outcome, ok, raised, value_error, ◌>>=◌}
use mvd_edge_agent.Idt85.Crc.{crc16}

abbrev pub inventory_command : ℕ
inventory_command = 0x01

abbrev pub inventory_no_tag_status : ℕ
inventory_no_tag_status = 0xFB

abbrev pub get_reader_info_command : ℕ
get_reader_info_command = 0x21

abbrev pub get_work_mode_command : ℕ
get_work_mode_command = 0x36

abbrev pub set_work_mode_command : ℕ
set_work_mode_command = 0x35

abbrev pub answer_mode : ℕ
answer_mode = 0x00

abbrev pub scan_mode : ℕ
scan_mode = 0x01

abbrev pub answer_mode_params : List ℕ
answer_mode_params = 0x00 ∷ 0x00 ∷ 0x05 ∷ 0x00 ∷ 0x01 ∷ 0x00 ∷ []

are_bytes : List ℕ → Bool
are_bytes [] = true
are_bytes (b ∷ rest) = ltb b 256 && are_bytes rest

-- Python's `bytes([...])`.
unfoldable pub bytes_of : List ℕ → Outcome (List ℕ)
unfolding are_bytes
bytes_of values =
    if are_bytes values
    then ok values
    else raised (value_error (codes "bytes must be in range(0, 256)"))

-- `crc & 0xFF` is `crc % 256`, and `(crc >> 8) & 0xFF` is `crc / 256 % 256`.
unfoldable pub make_command : ℕ → ℕ → List ℕ → Outcome (List ℕ)
unfolding bytes_of
make_command address command params = do
  head ← bytes_of ((1 + 1 + length params + 2) ∷ address ∷ command ∷ [])
  let body = head ++ params
  let crc = crc16 body
  trailer ← bytes_of ((crc % 256) ∷ (crc / 256 % 256) ∷ [])
  ok (body ++ trailer)

unfoldable pub build_inventory_command : ℕ → Outcome (List ℕ)
build_inventory_command address = make_command address inventory_command []

unfoldable pub build_get_reader_info_command : ℕ → Outcome (List ℕ)
build_get_reader_info_command address = make_command address get_reader_info_command []

unfoldable pub build_get_work_mode_command : ℕ → Outcome (List ℕ)
build_get_work_mode_command address = make_command address get_work_mode_command []

unfoldable pub build_set_answer_mode_command : ℕ → Outcome (List ℕ)
build_set_answer_mode_command address =
    make_command address set_work_mode_command answer_mode_params

unfoldable pub is_valid_command_response : List ℕ → ℕ → Bool
is_valid_command_response response command =
    if ltb (length response) 5 then false else get_or response 2 0 == command

unfoldable pub parse_work_mode_response : List ℕ → Option ℕ
unfolding is_valid_command_response
parse_work_mode_response response =
    if is_valid_command_response response get_work_mode_command
    then (if ltb (length response) 5 then none else some (get_or response 4 0))
    else none

-- `f"{mode:#04x}"` is `0x` and two digits, for the byte that a mode is.
unfoldable pub format_work_mode : Option ℕ → Text
format_work_mode none = codes "UNKNOWN"
format_work_mode (some mode) =
    if mode == answer_mode
    then codes "ANSWER"
    else if mode == scan_mode
    then codes "SCAN"
    else codes "UNKNOWN(0x" ++ hex (mode ∷ []) ++ codes ")"

-- The inventory command with the address of the source's default, byte by byte.
build_inventory_command_default :
    build_inventory_command 0x00 ≡ ok (0x04 ∷ 0x00 ∷ 0x01 ∷ 0xDB ∷ 0x4B ∷ [])
unfolding build_inventory_command make_command crc16
build_inventory_command_default = refl

format_work_mode_other : format_work_mode (some 0x2A) ≡ codes "UNKNOWN(0x2a)"
unfolding format_work_mode hex
format_work_mode_other = refl
