-- ===== src/Scripts/ReadEpc.antt =====
-- tools/read_epc.py: one inventory, and its tags.
use Prim.Native.Nat.{bit_xor}
use mvd_edge_agent.Prelude.{
  ℕ, zero, suc, ◌+◌, ◌/◌, ◌%◌, not, ◌==◌, ltb, List, [], ◌∷◌, ◌++◌, length, get_or, if◌then◌else◌,
  Text, codes,
}
use mvd_edge_agent.Outcome.{Outcome, ok, raised}
use mvd_edge_agent.Io.{Io, pure, ◌>>=◌, ◌>>◌}
use mvd_edge_agent.Host.{Host}
use mvd_edge_agent.Idt85.Command.{bytes_of}
use mvd_edge_agent.Idt85.Inventory.{epc_text, slice, is_tag_status}
use mvd_edge_agent.Cloud.{decimal}
use mvd_edge_agent.Cli.Format.{labelled, hex_number}
use mvd_edge_agent.Scripts.{
  Terminal, print, print_all, lifted, raw_hex, item_at, open_serial, close_serial, exchange,
}

-- The rounds of the script's own checksum: `crc & 1` is `crc % 2`, `crc >> 1` is `crc / 2`.
unfoldable pub crc_bit : ℕ → ℕ
crc_bit crc = if crc % 2 == 0 then crc / 2 else bit_xor (crc / 2) 0x8408

unfoldable pub crc_bits : ℕ → ℕ → ℕ
crc_bits zero crc = crc
crc_bits (suc n) crc = crc_bits n (crc_bit crc)

unfoldable pub crc_loop : ℕ → List ℕ → ℕ
crc_loop crc [] = crc
crc_loop crc (value ∷ rest) = crc_loop (crc_bits 8 (bit_xor crc value)) rest

unfoldable pub crc16 : List ℕ → ℕ
unfolding crc_loop
crc16 bytes = crc_loop 0xFFFF bytes % 65536

-- The checksum behind the body.
abbrev pub with_crc : List ℕ → Outcome (List ℕ)
with_crc body = elim (bytes_of ((crc16 body % 256) ∷ (crc16 body / 256 % 256) ∷ [])) [
  | raised e ↦ raised e
  | ok trailer ↦ ok (body ++ trailer)
]

unfoldable pub make_command : ℕ → ℕ → Outcome (List ℕ)
make_command address command = elim (bytes_of (0x04 ∷ address ∷ command ∷ [])) [
  | raised e ↦ raised e
  | ok body ↦ with_crc body
]

-- The port and the rate that the script has.
abbrev pub script_port : Text
script_port = codes "/dev/cu.usbserial-2120"

abbrev pub script_baud : ℕ
script_baud = 57600

module _ {W : Type 0} where
  -- The loop over the tags, from the number of the next one and its position on; a tag that begins
  -- behind the end raises.
  unfoldable pub report_tags : List ℕ → ℕ → ℕ → ℕ → Io (Terminal W) (Unit {0})
  report_tags response zero number position = pure tt
  report_tags response (suc count) number position = do
    epc_length ← lifted (item_at response position)
    print_all (
        labelled (codes "TAG") (decimal number)
        ∷ labelled (codes "EPC:") (epc_text (slice (position + 1) epc_length response))
        ∷ labelled (codes "EPC bytes:") (decimal epc_length)
        ∷ []
        ∷ [])
    report_tags response count (number + 1) (position + 1 + epc_length)

  -- What follows the raw answer: one of the three refusals, or the tags.
  unfoldable pub report_response : List ℕ → Io (Terminal W) (Unit {0})
  unfolding report_tags
  report_response response =
      if ltb (length response) 8
      then print (codes "Unexpected response.")
      else if not (get_or response 2 0 == 0x01)
      then print (
          labelled (codes "Unexpected command response:")
            (codes "0x" ++ hex_number (get_or response 2 0)))
      else if not (is_tag_status (get_or response 3 0))
      then print
          (labelled (codes "Inventory status:") (codes "0x" ++ hex_number (get_or response 3 0)))
      else (do
        print_all (labelled (codes "Tags detected:") (decimal (get_or response 4 0)) ∷ [] ∷ [])
        report_tags response (get_or response 4 0) 1 5)

  -- What is printed of the answer.
  unfoldable pub report_answer : List ℕ → Io (Terminal W) (Unit {0})
  unfolding report_response
  report_answer [] = print (codes "No response from reader.")
  report_answer (first ∷ others) = do
    print_all (codes "RAW HEX:" ∷ raw_hex (first ∷ others) ∷ [] ∷ [])
    report_response (first ∷ others)

module _ (h : Host) (duration : ℕ) where
  open h use {World}

  -- The script; an exception leaves the port open.
  unfoldable pub read_epc : Io (Terminal World) (Unit {0})
  unfolding report_answer
  read_epc = do
    open_serial h script_port script_baud
    cmd ← lifted (make_command 0x00 0x01)
    print_all (
        []
        ∷ codes "IDT-85 RFID READER"
        ∷ codes "=================="
        ∷ codes "Place tag near reader..."
        ∷ []
        ∷ [])
    response ← exchange h cmd duration 4096
    report_answer response
    close_serial h
