-- ===== src/Scripts/Diagnostics.antt =====
-- tools/reader_diagnostics.py: one inventory with the frames of the driver.
use mvd_edge_agent.Prelude.{ℕ, List, [], ◌∷◌, ◌++◌, Text, codes}
use mvd_edge_agent.Io.{Io, ◌>>=◌, ◌>>◌}
use mvd_edge_agent.Host.{Host}
use mvd_edge_agent.Idt85.Command.{build_inventory_command}
use mvd_edge_agent.Idt85.Inventory.{parse_inventory_response}
use mvd_edge_agent.Cli.Format.{labelled}
use mvd_edge_agent.Scripts.{
  Terminal, print, print_all, lifted, finally, raw_hex, open_serial, exchange,
}

-- `repr` of texts without quotation marks or backslashes, in a list.
unfoldable pub items_repr : List Text → Text
items_repr [] = []
items_repr (t ∷ ts) = elim ts [
  | [] ↦ b'\'' ∷ t ++ b'\'' ∷ []
  | u ∷ others ↦ b'\'' ∷ t ++ (codes "', " ++ items_repr ts)
]

abbrev pub list_repr : List Text → Text
list_repr ts = codes "[" ++ (items_repr ts ++ codes "]")

abbrev pub hex_or : List ℕ → Text
hex_or [] = codes "NO RESPONSE"
hex_or (first ∷ others) = raw_hex (first ∷ others)

module _ (h : Host) (duration : ℕ) where
  open h use {World, serial_close}

  -- The `try` block.
  unfoldable pub scan_once : Io (Terminal World) (Unit {0})
  scan_once = do
    command ← lifted (build_inventory_command 0x00)
    print (labelled (codes "TX HEX:") (raw_hex command))
    response ← exchange h command duration 4096
    print_all (
        labelled (codes "RX HEX:") (hex_or response)
        ∷ labelled (codes "TAGS:") (list_repr (parse_inventory_response response))
        ∷ [])

  -- `main`, with the arguments.
  unfoldable pub reader_diagnostics : Text → ℕ → Io (Terminal World) (Unit {0})
  unfolding scan_once
  reader_diagnostics port baud = do open_serial h port baud; finally scan_once serial_close
