-- ===== src/Scripts/Frames.antt =====
-- The commands that the scripts build, against those of the driver.
use mvd_edge_agent.Prelude.{
  ℕ, ◌≡◌, ◌+◌, ◌/◌, ◌%◌, ap, ◌∙◌, List, [], ◌∷◌, ◌++◌, append-nil, arith, length,
}
use mvd_edge_agent.Outcome.{Outcome, ok, raised}
use mvd_edge_agent.Idt85.Crc
use mvd_edge_agent.Idt85.Command.{bytes_of}
use mvd_edge_agent.Idt85.Command
use mvd_edge_agent.Scripts.Checksums.{
  work_mode_checksum, answer_checksum, read_epc_checksum, inventory_checksum,
  inventory_addr00_checksum, inventory_0f_checksum, params_checksum,
}
use mvd_edge_agent.Scripts.WorkMode
use mvd_edge_agent.Scripts.AnswerMode
use mvd_edge_agent.Scripts.ReadEpc
use mvd_edge_agent.Scripts.Inventory
use mvd_edge_agent.Scripts.InventoryAddr00
use mvd_edge_agent.Scripts.Inventory0f
use mvd_edge_agent.Scripts.InventoryParams

-- Some bytes with parameters and their checksum.
abbrev framed : (List ℕ → ℕ) → List ℕ → List ℕ → Outcome (List ℕ)
framed checksum start params = elim (bytes_of start) [
  | raised e ↦ raised e
  | ok head ↦
      let crc = checksum (head ++ params) in
      elim (bytes_of ((crc % 256) ∷ (crc / 256 % 256) ∷ [])) [
        | raised e ↦ raised e
        | ok trailer ↦ ok ((head ++ params) ++ trailer)
      ]
]

-- A checksum that is the driver's gives the driver's frames.
framed-make_command :
    (checksum : List ℕ → ℕ) (address command : ℕ) (params : List ℕ)
    → ((bytes : List ℕ) → checksum bytes ≡ Crc.crc16 bytes)
    → framed checksum ((1 + 1 + length params + 2) ∷ address ∷ command ∷ []) params
      ≡ Command.make_command address command params
unfolding Command.make_command
framed-make_command checksum address command params same =
    ap (λ other. framed other ((1 + 1 + length params + 2) ∷ address ∷ command ∷ []) params)
      (λ i bytes. same bytes i)
    ∙ ground arith

-- Without parameters nothing is put behind the bytes.
plain :
    (checksum : List ℕ → ℕ) (address command : ℕ)
    → (elim (bytes_of (0x04 ∷ address ∷ command ∷ [])) as (λ _. Outcome (List ℕ)) [
      | raised e ↦ raised e
      | ok body ↦
          elim (bytes_of ((checksum body % 256) ∷ (checksum body / 256 % 256) ∷ []))
            as (λ _. Outcome (List ℕ)) [ raised e ↦ raised e | ok trailer ↦ ok (body ++ trailer) ]
    ])
      ≡ framed checksum (0x04 ∷ address ∷ command ∷ []) []
unfolding bytes_of
plain checksum address command = ground (arith, append-nil (0x04 ∷ address ∷ command ∷ []))

work_mode_frames :
    (address command : ℕ)
    → WorkMode.make_command address command ≡ Command.make_command address command []
unfolding WorkMode.make_command
work_mode_frames address command =
    plain WorkMode.crc16 address command
    ∙ framed-make_command WorkMode.crc16 address command [] work_mode_checksum

answer_frames :
    (address command : ℕ) (params : List ℕ)
    → length params ≡ 6
    → AnswerMode.make_command address command params ≡ Command.make_command address command params
unfolding AnswerMode.make_command
answer_frames address command params six =
    ap (λ count. framed AnswerMode.crc16 (count ∷ address ∷ command ∷ []) params) ten
    ∙ framed-make_command AnswerMode.crc16 address command params answer_checksum
  where
    ten : 0x0A ≡ 1 + 1 + length params + 2
    ten = omega (arith, six)

read_epc_frames :
    (address command : ℕ)
    → ReadEpc.make_command address command ≡ Command.make_command address command []
unfolding ReadEpc.make_command
read_epc_frames address command =
    plain ReadEpc.crc16 address command
    ∙ framed-make_command ReadEpc.crc16 address command [] read_epc_checksum

inventory_frames :
    (address command : ℕ)
    → Inventory.make_command address command ≡ Command.make_command address command []
unfolding Inventory.make_command
inventory_frames address command =
    plain Inventory.crc16_mcrf4xx address command
    ∙ framed-make_command Inventory.crc16_mcrf4xx address command [] inventory_checksum

inventory_addr00_frames :
    (address command : ℕ)
    → InventoryAddr00.make_command address command ≡ Command.make_command address command []
unfolding InventoryAddr00.make_command
inventory_addr00_frames address command =
    plain InventoryAddr00.crc16_mcrf4xx address command
    ∙ framed-make_command InventoryAddr00.crc16_mcrf4xx address command [] inventory_addr00_checksum

inventory_0f_frames :
    (address command : ℕ)
    → Inventory0f.make_command address command ≡ Command.make_command address command []
unfolding Inventory0f.make_command
inventory_0f_frames address command =
    plain Inventory0f.crc16_mcrf4xx address command
    ∙ framed-make_command Inventory0f.crc16_mcrf4xx address command [] inventory_0f_checksum

params_frames :
    (address command : ℕ) (params : List ℕ)
    → InventoryParams.make_command address command params
      ≡ Command.make_command address command params
unfolding InventoryParams.make_command
params_frames address command params =
    framed-make_command InventoryParams.crc16_mcrf4xx address command params params_checksum

-- All seven scripts build the frames of the driver, for every address and command, errors
-- included: five of them without parameters, inventory_params.py with any, and set_answer_mode.py
-- with six of them, the number that its length byte stands for.
pub frames-BuildTheSame :
    (address command : ℕ) (params six : List ℕ)
    → length six ≡ 6
    → (WorkMode.make_command address command ≡ Command.make_command address command [])
      × (ReadEpc.make_command address command ≡ Command.make_command address command [])
      × (Inventory.make_command address command ≡ Command.make_command address command [])
      × (InventoryAddr00.make_command address command ≡ Command.make_command address command [])
      × (Inventory0f.make_command address command ≡ Command.make_command address command [])
      × (InventoryParams.make_command address command params
          ≡ Command.make_command address command params)
      × (AnswerMode.make_command address command six ≡ Command.make_command address command six)
frames-BuildTheSame address command params six counted = (
  work_mode_frames address command,
  read_epc_frames address command,
  inventory_frames address command,
  inventory_addr00_frames address command,
  inventory_0f_frames address command,
  params_frames address command params,
  answer_frames address command six counted,
)
