-- ===== src/Scripts/Checksums.antt =====
-- The checksums of the scripts, each with its own loop, against that of the driver.
use mvd_edge_agent.Prelude.{ℕ, ◌≡◌, ◌%◌, List, refl, ap}
use mvd_edge_agent.Idt85.Crc
use mvd_edge_agent.Idt85.Crc.Same.{loop-crc_loop}
use mvd_edge_agent.Scripts.WorkMode
use mvd_edge_agent.Scripts.AnswerMode
use mvd_edge_agent.Scripts.ReadEpc
use mvd_edge_agent.Scripts.Inventory
use mvd_edge_agent.Scripts.InventoryAddr00
use mvd_edge_agent.Scripts.Inventory0f
use mvd_edge_agent.Scripts.InventoryParams

pub work_mode_checksum : (bytes : List ℕ) → WorkMode.crc16 bytes ≡ Crc.crc16 bytes
unfolding WorkMode.crc16 WorkMode.crc_loop WorkMode.crc_bits WorkMode.crc_bit Crc.crc16
work_mode_checksum bytes =
    ap (λ crc. crc % 65536)
      (loop-crc_loop WorkMode.crc_bit WorkMode.crc_bits WorkMode.crc_loop (λ crc. refl)
        (λ crc. refl) (λ n crc. refl) (λ crc. refl) (λ crc value rest. refl) 0xFFFF bytes)

pub answer_checksum : (bytes : List ℕ) → AnswerMode.crc16 bytes ≡ Crc.crc16 bytes
unfolding AnswerMode.crc16 AnswerMode.crc_loop AnswerMode.crc_bits AnswerMode.crc_bit Crc.crc16
answer_checksum bytes =
    ap (λ crc. crc % 65536)
      (loop-crc_loop AnswerMode.crc_bit AnswerMode.crc_bits AnswerMode.crc_loop (λ crc. refl)
        (λ crc. refl) (λ n crc. refl) (λ crc. refl) (λ crc value rest. refl) 0xFFFF bytes)

pub read_epc_checksum : (bytes : List ℕ) → ReadEpc.crc16 bytes ≡ Crc.crc16 bytes
unfolding ReadEpc.crc16 ReadEpc.crc_loop ReadEpc.crc_bits ReadEpc.crc_bit Crc.crc16
read_epc_checksum bytes =
    ap (λ crc. crc % 65536)
      (loop-crc_loop ReadEpc.crc_bit ReadEpc.crc_bits ReadEpc.crc_loop (λ crc. refl) (λ crc. refl)
        (λ n crc. refl) (λ crc. refl) (λ crc value rest. refl) 0xFFFF bytes)

pub inventory_checksum : (bytes : List ℕ) → Inventory.crc16_mcrf4xx bytes ≡ Crc.crc16 bytes
unfolding Inventory.crc16_mcrf4xx Inventory.crc_loop Inventory.crc_bits Inventory.crc_bit Crc.crc16
inventory_checksum bytes =
    ap (λ crc. crc % 65536)
      (loop-crc_loop Inventory.crc_bit Inventory.crc_bits Inventory.crc_loop (λ crc. refl)
        (λ crc. refl) (λ n crc. refl) (λ crc. refl) (λ crc value rest. refl) 0xFFFF bytes)

pub inventory_addr00_checksum :
    (bytes : List ℕ) → InventoryAddr00.crc16_mcrf4xx bytes ≡ Crc.crc16 bytes
unfolding InventoryAddr00.crc16_mcrf4xx InventoryAddr00.crc_loop InventoryAddr00.crc_bits
    InventoryAddr00.crc_bit Crc.crc16
inventory_addr00_checksum bytes =
    ap (λ crc. crc % 65536)
      (loop-crc_loop InventoryAddr00.crc_bit InventoryAddr00.crc_bits InventoryAddr00.crc_loop
        (λ crc. refl) (λ crc. refl) (λ n crc. refl) (λ crc. refl) (λ crc value rest. refl) 0xFFFF
        bytes)

pub inventory_0f_checksum : (bytes : List ℕ) → Inventory0f.crc16_mcrf4xx bytes ≡ Crc.crc16 bytes
unfolding Inventory0f.crc16_mcrf4xx Inventory0f.crc_loop Inventory0f.crc_bits Inventory0f.crc_bit
    Crc.crc16
inventory_0f_checksum bytes =
    ap (λ crc. crc % 65536)
      (loop-crc_loop Inventory0f.crc_bit Inventory0f.crc_bits Inventory0f.crc_loop (λ crc. refl)
        (λ crc. refl) (λ n crc. refl) (λ crc. refl) (λ crc value rest. refl) 0xFFFF bytes)

pub params_checksum : (bytes : List ℕ) → InventoryParams.crc16_mcrf4xx bytes ≡ Crc.crc16 bytes
unfolding InventoryParams.crc16_mcrf4xx InventoryParams.crc_loop InventoryParams.crc_bits
    InventoryParams.crc_bit Crc.crc16
params_checksum bytes =
    ap (λ crc. crc % 65536)
      (loop-crc_loop InventoryParams.crc_bit InventoryParams.crc_bits InventoryParams.crc_loop
        (λ crc. refl) (λ crc. refl) (λ n crc. refl) (λ crc. refl) (λ crc value rest. refl) 0xFFFF
        bytes)
