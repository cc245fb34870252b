-- ===== src/Scripts/WorkMode.antt =====
-- tools/get_workmode.py: the work mode is asked for and its answer printed.
use Prim.Native.Nat.{bit_xor}
use mvd_edge_agent.Prelude.{
  ℕ, ◌/◌, ◌%◌, List, [], ◌∷◌, ◌++◌, length, Text, codes, zero, suc, ◌==◌, if◌then◌else◌,
}
use mvd_edge_agent.Outcome.{Outcome, ok, raised}
use mvd_edge_agent.Io.{Io, ◌>>=◌, ◌>>◌}
use mvd_edge_agent.Host.{Host}
use mvd_edge_agent.Idt85.Command.{bytes_of}
use mvd_edge_agent.Cloud.{decimal}
use mvd_edge_agent.Cli.Format.{labelled}
use mvd_edge_agent.Scripts.{Terminal, print_all, lifted, finally, raw_hex, open_serial, exchange}

-- The rounds of the script's own checksum: `crc & 1` is `crc % 2`, `crc >> 1` is `crc / 2`.
unfoldable pub crc_bit : ℕ → ℕ
crc_bit crc = if crc % 2 == 0 then crc / 2 else bit_xor (crc / 2) 0x8408

unfoldable pub crc_bits : ℕ → ℕ → ℕ
crc_bits zero crc = crc
crc_bits (suc n) crc = crc_bits n (crc_bit crc)

unfoldable pub crc_loop : ℕ → List ℕ → ℕ
crc_loop crc [] = crc
crc_loop crc (value ∷ rest) = crc_loop (crc_bits 8 (bit_xor crc value)) rest

unfoldable pub crc16 : List ℕ → ℕ
unfolding crc_loop
crc16 bytes = crc_loop 0xFFFF bytes % 65536

-- The checksum behind the body.
abbrev pub with_crc : List ℕ → Outcome (List ℕ)
with_crc body = elim (bytes_of ((crc16 body % 256) ∷ (crc16 body / 256 % 256) ∷ [])) [
  | raised e ↦ raised e
  | ok trailer ↦ ok (body ++ trailer)
]

unfoldable pub make_command : ℕ → ℕ → Outcome (List ℕ)
make_command address command = elim (bytes_of (0x04 ∷ address ∷ command ∷ [])) [
  | raised e ↦ raised e
  | ok body ↦ with_crc body
]

-- What is printed of the answer.
abbrev pub answer_lines : List ℕ → List Text
answer_lines [] = codes "NO RESPONSE" ∷ []
answer_lines (first ∷ others) =
    labelled (codes "RX HEX:") (raw_hex (first ∷ others))
    ∷ labelled (codes "RX LEN:") (decimal (length (first ∷ others)))
    ∷ []

module _ (h : Host) (duration : ℕ) where
  open h use {World, serial_close}

  -- The `try` block.
  unfoldable pub ask_work_mode : Text → ℕ → Io (Terminal World) (Unit {0})
  ask_work_mode port baud = do
    cmd ← lifted (make_command 0x00 0x36)
    print_all (
        codes "Get Work Mode"
        ∷ codes "-------------"
        ∷ labelled (codes "Port:") port
        ∷ labelled (codes "Baud:") (decimal baud)
        ∷ labelled (codes "TX HEX:") (raw_hex cmd)
        ∷ [])
    response ← exchange h cmd duration 256
    print_all (answer_lines response)

  -- `main`, with the arguments.
  unfoldable pub get_workmode : Text → ℕ → Io (Terminal World) (Unit {0})
  unfolding ask_work_mode
  get_workmode port baud = do
    open_serial h port baud
    finally (ask_work_mode port baud) serial_close
