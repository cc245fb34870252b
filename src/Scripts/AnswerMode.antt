-- ===== src/Scripts/AnswerMode.antt =====
-- tools/set_answer_mode.py: the reader is set to the answer mode.
use Prim.Native.Nat.{bit_xor}
use mvd_edge_agent.Prelude.{
  ℕ, ◌/◌, ◌%◌, List, [], ◌∷◌, ◌++◌, Text, codes, zero, suc, ◌==◌, if◌then◌else◌,
}
use mvd_edge_agent.Outcome.{Outcome, ok, raised}
use mvd_edge_agent.Io.{Io, ◌>>=◌, ◌>>◌}
use mvd_edge_agent.Host.{Host}
use mvd_edge_agent.Idt85.Command.{bytes_of}
use mvd_edge_agent.Cli.Format.{labelled}
use mvd_edge_agent.Scripts.{
  Terminal, print_all, lifted, raw_hex, open_serial, close_serial, exchange,
}

-- The rounds of the script's own checksum: `crc & 1` is `crc % 2`, `crc >> 1` is `crc / 2`.
unfoldable pub crc_bit : ℕ → ℕ
crc_bit crc = if crc % 2 == 0 then crc / 2 else bit_xor (crc / 2) 0x8408

unfoldable pub crc_bits : ℕ → ℕ → ℕ
crc_bits zero crc = crc
crc_bits (suc n) crc = crc_bits n (crc_bit crc)

unfoldable pub crc_loop : ℕ → List ℕ → ℕ
crc_loop crc [] = crc
crc_loop crc (value ∷ rest) = crc_loop (crc_bits 8 (bit_xor crc value)) rest

unfoldable pub crc16 : List ℕ → ℕ
unfolding crc_loop
crc16 bytes = crc_loop 0xFFFF bytes % 65536

-- The checksum behind the body.
abbrev pub with_crc : List ℕ → Outcome (List ℕ)
with_crc body = elim (bytes_of ((crc16 body % 256) ∷ (crc16 body / 256 % 256) ∷ [])) [
  | raised e ↦ raised e
  | ok trailer ↦ ok (body ++ trailer)
]

-- The length stands for six bytes of parameters.
unfoldable pub make_command : ℕ → ℕ → List ℕ → Outcome (List ℕ)
make_command address command params = elim (bytes_of (0x0A ∷ address ∷ command ∷ [])) [
  | raised e ↦ raised e
  | ok head ↦ with_crc (head ++ params)
]

-- The port and the rate that the script has.
abbrev pub script_port : Text
script_port = codes "/dev/cu.usbserial-2120"

abbrev pub script_baud : ℕ
script_baud = 57600

abbrev pub params : List ℕ
params = 0x00 ∷ 0x00 ∷ 0x05 ∷ 0x00 ∷ 0x01 ∷ 0x00 ∷ []

-- What is printed of the answer.
abbrev pub answer_lines : List ℕ → List Text
answer_lines [] = codes "NO RESPONSE" ∷ []
answer_lines (first ∷ others) = labelled (codes "RX HEX:") (raw_hex (first ∷ others)) ∷ []

module _ (h : Host) (duration : ℕ) where
  open h use {World}

  -- The script; an exception leaves the port open.
  unfoldable pub set_answer_mode_script : Io (Terminal World) (Unit {0})
  set_answer_mode_script = do
    open_serial h script_port script_baud
    cmd ← lifted (make_command 0x00 0x35 params)
    print_all (
        codes "SET ANSWER MODE"
        ∷ codes "----------------"
        ∷ labelled (codes "TX HEX:") (raw_hex cmd)
        ∷ [])
    response ← exchange h cmd duration 256
    print_all (answer_lines response)
    close_serial h
