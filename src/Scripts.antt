-- ===== src/Scripts.antt =====
-- The scripts for the bench (tools, legacy): what they share, a terminal and a serial port.
pub mod WorkMode
pub mod AnswerMode
pub mod ReadEpc
pub mod Diagnostics
pub mod ProbeReader
pub mod Inventory
pub mod InventoryAddr00
pub mod Inventory0f
pub mod InventoryParams
pub mod Checksums
pub mod Frames
pub mod Tags
use mvd_edge_agent.Prelude.{
  ℕ, Bool, true, false, Option, none, some, List, [], ◌∷◌, ◌++◌, length, get_or, ltb, if◌then◌else◌,
  Text, codes, hex, upper,
}
use mvd_edge_agent.Outcome.{Outcome, ok, raised, other_error}
use mvd_edge_agent.Io.{Io, pure, ◌>>=◌, ◌>>◌}
use mvd_edge_agent.Host.{Host}
use mvd_edge_agent.Cloud.{decimal}
use mvd_edge_agent.Cli.Format.{labelled}

-- The outside world with what was printed.
pub record Terminal (W : Type 0) : Type 0 where
  pub world : W
  pub lines : List Text

module _ {W : Type 0} where
  abbrev pub print : Text → Io (Terminal W) (Unit {0})
  print line t = (ok tt, record { world = t.world; lines = t.lines ++ line ∷ [] })

  abbrev pub print_all : List Text → Io (Terminal W) (Unit {0})
  print_all lines t = (ok tt, record { world = t.world; lines = t.lines ++ lines })

  -- A computation that only may raise.
  abbrev pub lifted : {A : Type 0} → Outcome A → Io (Terminal W) A
  lifted outcome t = (outcome, t)

  -- A call that prints nothing.
  abbrev pub silently : {A : Type 0} → Io W A → Io (Terminal W) A
  silently m t = let (outcome, w) = m t.world in (outcome, record { world = w; lines = t.lines })

  -- `finally`: the end of a block, whether it raised or not.
  abbrev pub finally : {A : Type 0} → Io (Terminal W) A → (W → W) → Io (Terminal W) A
  finally m close t =
      let (outcome, t') = m t in (outcome, record { world = close t'.world; lines = t'.lines })

-- `data.hex(" ")`
unfoldable pub spaced_hex : List ℕ → Text
spaced_hex [] = []
spaced_hex (b ∷ bytes) = elim bytes [
  | [] ↦ hex (b ∷ [])
  | c ∷ others ↦ hex (b ∷ []) ++ (codes " " ++ spaced_hex bytes)
]

-- `data.hex(" ").upper()`
abbrev pub raw_hex : List ℕ → Text
raw_hex bytes = upper (spaced_hex bytes)

-- `data[position]`
abbrev pub item_at : List ℕ → ℕ → Outcome ℕ
item_at bytes position =
    if ltb position (length bytes)
    then ok (get_or bytes position 0)
    else raised (other_error (codes "index out of range"))

module _ (h : Host) where
  open h use {World, sleep, serial_open, serial_close, serial_write, serial_read}

  abbrev pub open_serial : Text → ℕ → Io (Terminal World) (Unit {0})
  open_serial port baud = silently (serial_open port baud)

  abbrev pub close_serial : Io (Terminal World) (Unit {0})
  close_serial t = (ok tt, record { world = serial_close t.world; lines = t.lines })

  abbrev pub pause : ℕ → Io World (Unit {0})
  pause duration w = (ok tt, sleep duration w)

  -- The command is sent, and after a pause at most `size` bytes are read.
  unfoldable pub exchange : List ℕ → ℕ → ℕ → Io (Terminal World) (List ℕ)
  exchange command duration size =
      silently (do serial_write command; pause duration; serial_read size)
