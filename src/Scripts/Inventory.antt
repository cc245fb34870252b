-- ===== src/Scripts/Inventory.antt =====
-- legacy/inventory.py: an inventory at the broadcast address.
use Prim.Native.Nat.{bit_xor}
use mvd_edge_agent.Prelude.{
  ℕ, ◌/◌, ◌%◌, List, [], ◌∷◌, ◌++◌, length, Text, codes, zero, suc, ◌==◌, if◌then◌else◌,
}
use mvd_edge_agent.Outcome.{Outcome, ok, raised}
use mvd_edge_agent.Io.{Io, ◌>>=◌, ◌>>◌}
use mvd_edge_agent.Host.{Host}
use mvd_edge_agent.Idt85.Command.{bytes_of}
use mvd_edge_agent.Cloud.{decimal}
use mvd_edge_agent.Cli.Format.{labelled}
use mvd_edge_agent.Scripts.{
  Terminal, print_all, lifted, raw_hex, open_serial, close_serial, exchange,
}

-- The rounds of the script's own checksum: `crc & 1` is `crc % 2`, `crc >> 1` is `crc / 2`.
unfoldable pub crc_bit : ℕ → ℕ
crc_bit crc = if crc % 2 == 0 then crc / 2 else bit_xor (crc / 2) 0x8408

unfoldable pub crc_bits : ℕ → ℕ → ℕ
crc_bits zero crc = crc
crc_bits (suc n) crc = crc_bits n (crc_bit crc)

unfoldable pub crc_loop : ℕ → List ℕ → ℕ
crc_loop crc [] = crc
crc_loop crc (value ∷ rest) = crc_loop (crc_bits 8 (bit_xor crc value)) rest

unfoldable pub crc16_mcrf4xx : List ℕ → ℕ
unfolding crc_loop
crc16_mcrf4xx bytes = crc_loop 0xFFFF bytes % 65536

-- The checksum behind the body.
abbrev pub with_crc : List ℕ → Outcome (List ℕ)
with_crc body =
    elim (bytes_of ((crc16_mcrf4xx body % 256) ∷ (crc16_mcrf4xx body / 256 % 256) ∷ [])) [
      | raised e ↦ raised e
      | ok trailer ↦ ok (body ++ trailer)
    ]

unfoldable pub make_command : ℕ → ℕ → Outcome (List ℕ)
make_command address command = elim (bytes_of (0x04 ∷ address ∷ command ∷ [])) [
  | raised e ↦ raised e
  | ok body ↦ with_crc body
]

-- The port and the rate that the script has.
abbrev pub script_port : Text
script_port = codes "/dev/cu.usbserial-2120"

abbrev pub script_baud : ℕ
script_baud = 57600

-- What is printed of the answer.
abbrev pub answer_lines : List ℕ → List Text
answer_lines [] = codes "NO TAG RESPONSE" ∷ []
answer_lines (first ∷ others) =
    let response = first ∷ others in
    codes "RX HEX:"
    ∷ raw_hex response
    ∷ []
    ∷ labelled (codes "Received bytes:") (decimal (length response))
    ∷ []

module _ (h : Host) (duration : ℕ) where
  open h use {World}

  unfoldable pub inventory_script : Io (Terminal World) (Unit {0})
  inventory_script = do
    open_serial h script_port script_baud
    cmd ← lifted (make_command 0xFF 0x01)
    print_all (
        codes "RFID inventory test"
        ∷ codes "-------------------"
        ∷ labelled (codes "Port :") script_port
        ∷ labelled (codes "Baud :") (decimal script_baud)
        ∷ labelled (codes "TX   :") (raw_hex cmd)
        ∷ []
        ∷ codes "Place ONE RFID tag near the reader..."
        ∷ []
        ∷ [])
    response ← exchange h cmd duration 4096
    print_all (answer_lines response)
    close_serial h
