-- ===== src/Idt85/Crc.antt =====
-- `crc16` and `has_valid_crc` of src/mvd_edge/adapters/idt85.py.
pub mod Rounds
pub mod Residue
pub mod Detect
pub mod Same
use Prim.Native.Nat.{bit_xor, bit_or}
use mvd_edge_agent.Prelude.{
  ℕ, zero, suc, ◌-◌, ◌*◌, ◌/◌, ◌%◌, ◌<◌, ◌≡◌, refl, Bool, false, List, [], ◌∷◌, ltb, ◌==◌,
  if◌then◌else◌, length, take, get_or, All,
}

-- One round of the inner loop: `crc & 1` is `crc % 2`, `crc >> 1` is `crc / 2`.
pub crc_bit : ℕ → ℕ
crc_bit crc = if crc % 2 == 0 then crc / 2 else bit_xor (crc / 2) 0x8408

pub crc_bits : ℕ → ℕ → ℕ
unfolding crc_bit
crc_bits zero crc = crc
crc_bits (suc n) crc = crc_bits n (crc_bit crc)

pub crc_loop : ℕ → List ℕ → ℕ
unfolding crc_bits
crc_loop crc [] = crc
crc_loop crc (value ∷ rest) = crc_loop (crc_bits 8 (bit_xor crc value)) rest

unfoldable pub crc16 : List ℕ → ℕ
unfolding crc_loop
crc16 bytes = crc_loop 0xFFFF bytes % 65536

-- `response[:-2]` is a `take`, and `response[-2] | (response[-1] << 8)` reads the last two bytes.
unfoldable pub has_valid_crc : List ℕ → Bool
has_valid_crc response =
    if ltb (length response) 3
    then false
    else crc16 (take (length response - 2) response)
      == bit_or (get_or response (length response - 2) 0)
          (get_or response (length response - 1) 0 * 256)

-- The values of a Python `bytes`.
abbrev pub IsByte : ℕ → Type 0
IsByte b = b < 256

abbrev pub AreBytes : List ℕ → Type 0
AreBytes = All IsByte

-- The no-tag response observed on the hardware, quoted in the source.
crc16-no_tag : crc16 (0x05 ∷ 0x00 ∷ 0x01 ∷ 0xFB ∷ []) ≡ 0x3DF2
unfolding crc16
crc16-no_tag = refl
