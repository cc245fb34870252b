-- ===== src/Idt85.antt =====
-- The IDT-85 reader protocol (src/mvd_edge/adapters/idt85.py): the checksum, the commands, the
-- inventory responses.
pub mod Crc
pub mod Command
pub mod Inventory
pub mod Device
