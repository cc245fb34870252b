-- ===== src/Idt85/Crc/Same.antt =====
-- Loops written like that of `crc16` of src/mvd_edge/adapters/idt85.py: the diagnostic scripts have
-- copies of it.
use Prim.Native.Nat.{bit_xor}
use mvd_edge_agent.Prelude.{
  ℕ, zero, suc, ◌/◌, ◌%◌, ◌≡◌, ap, ◌∙◌, List, [], ◌∷◌, ◌==◌, if◌then◌else◌,
}
use mvd_edge_agent.Idt85.Crc.{crc_bit, crc_bits, crc_loop}

-- A loop over bytes that starts, round by round and byte by byte, as this one does, is this one.
module _ (bit : ℕ → ℕ) (bits : ℕ → ℕ → ℕ) (loop : ℕ → List ℕ → ℕ)
    (bit_eq : (crc : ℕ) → bit crc ≡ (if crc % 2 == 0 then crc / 2 else bit_xor (crc / 2) 0x8408))
    (bits_zero : (crc : ℕ) → bits zero crc ≡ crc)
    (bits_suc : (n crc : ℕ) → bits (suc n) crc ≡ bits n (bit crc))
    (loop_nil : (crc : ℕ) → loop crc [] ≡ crc)
    (loop_cons : (crc value : ℕ) (rest : List ℕ)
      → loop crc (value ∷ rest) ≡ loop (bits 8 (bit_xor crc value)) rest) where
  bit-crc_bit : (crc : ℕ) → bit crc ≡ crc_bit crc
  unfolding crc_bit
  bit-crc_bit crc = bit_eq crc

  bits-crc_bits : (n crc : ℕ) → bits n crc ≡ crc_bits n crc
  unfolding crc_bits
  bits-crc_bits zero crc = bits_zero crc
  bits-crc_bits (suc n) crc =
      bits_suc n crc ∙ ap (bits n) (bit-crc_bit crc) ∙ bits-crc_bits n (crc_bit crc)

  pub loop-crc_loop : (crc : ℕ) (bytes : List ℕ) → loop crc bytes ≡ crc_loop crc bytes
  unfolding crc_loop
  loop-crc_loop crc [] = loop_nil crc
  loop-crc_loop crc (value ∷ rest) =
      loop_cons crc value rest
      ∙ ap (λ next. loop next rest) (bits-crc_bits 8 (bit_xor crc value))
      ∙ loop-crc_loop (crc_bits 8 (bit_xor crc value)) rest
