-- ===== src/Idt85/Crc/Rounds.antt =====
-- `crc16` round by round: each round, and each byte, is injective on 16-bit values.
use Prim.Native.Nat.{bit_xor}
use mvd_edge_agent.Prelude.{
  ℕ, zero, suc, ◌+◌, ◌/◌, ◌^◌, ◌<◌, ◌≡◌, refl, ap, sym, ◌∙◌, List, [], ◌∷◌, ◌++◌, arith,
}
use mvd_edge_agent.Prelude.Bits.{bit_xor-lt, bit_xor_cancel, bit_xor_cancel_left, bit_xor_top}
use mvd_edge_agent.Idt85.Crc.{crc_bit, crc_bits, crc_loop, IsByte, AreBytes}

-- The polynomial has its highest bit set, so a round that used it can be told from one that did not.
polynomial_top : (x : ℕ) → x < 2 ^ 15 → bit_xor x 0x8408 ≡ 2 ^ 15 + bit_xor x 0x408
polynomial_top x h = bit_xor_top 15 x 0x408 h (omega arith)

polynomial_lt : (x : ℕ) → x < 2 ^ 15 → bit_xor x 0x408 < 2 ^ 15
polynomial_lt x h = bit_xor-lt 15 x 0x408 h (omega arith)

polynomial_cancel : (x : ℕ) → x < 2 ^ 15 → bit_xor (bit_xor x 0x408) 0x408 ≡ x
polynomial_cancel x h = bit_xor_cancel 15 x 0x408 h (omega arith)

pub crc_bit-lt : (c : ℕ) → c < 2 ^ 16 → crc_bit c < 2 ^ 16
unfolding crc_bit
crc_bit-lt c h = ground (arith, polynomial_top (c / 2), polynomial_lt (c / 2))

crc_bit_injective : (a b : ℕ) → a < 2 ^ 16 → b < 2 ^ 16 → crc_bit a ≡ crc_bit b → a ≡ b
unfolding crc_bit
crc_bit_injective a b p q e = ground (
  arith,
  polynomial_top (a / 2),
  polynomial_top (b / 2),
  polynomial_lt (a / 2),
  polynomial_lt (b / 2),
  polynomial_cancel (a / 2),
  polynomial_cancel (b / 2),
)

pub crc_bits-lt : (n c : ℕ) → c < 2 ^ 16 → crc_bits n c < 2 ^ 16
unfolding crc_bits
crc_bits-lt zero c h = h
crc_bits-lt (suc n) c h = crc_bits-lt n (crc_bit c) (crc_bit-lt c h)

crc_bits_injective : (n a b : ℕ) → a < 2 ^ 16 → b < 2 ^ 16 → crc_bits n a ≡ crc_bits n b → a ≡ b
unfolding crc_bits
crc_bits_injective zero a b p q e = e
crc_bits_injective (suc n) a b p q e =
    crc_bit_injective a b p q
      (crc_bits_injective n (crc_bit a) (crc_bit b) (crc_bit-lt a p) (crc_bit-lt b q) e)

-- The effect of one byte on the running checksum.
abbrev pub absorb : ℕ → ℕ → ℕ
absorb crc value = crc_bits 8 (bit_xor crc value)

pub absorb-lt : (c v : ℕ) → c < 2 ^ 16 → IsByte v → absorb c v < 2 ^ 16
absorb-lt c v p q = crc_bits-lt 8 (bit_xor c v) (bit_xor-lt 16 c v p (omega arith))

pub crc_bits_eight_injective :
    (a b : ℕ) → a < 2 ^ 16 → b < 2 ^ 16 → crc_bits 8 a ≡ crc_bits 8 b → a ≡ b
crc_bits_eight_injective = crc_bits_injective 8

pub absorb_injective_byte :
    (c x y : ℕ) → c < 2 ^ 16 → IsByte x → IsByte y → absorb c x ≡ absorb c y → x ≡ y
absorb_injective_byte c x y p q r e =
    let e' =
      crc_bits_injective 8 (bit_xor c x) (bit_xor c y) (bit_xor-lt 16 c x p (omega arith))
        (bit_xor-lt 16 c y p (omega arith)) e in
    sym (bit_xor_cancel_left 16 c x p (omega arith))
    ∙ ap (λ (t : ℕ). bit_xor c t) e'
    ∙ bit_xor_cancel_left 16 c y p (omega arith)

absorb_injective :
    (a b v : ℕ) → a < 2 ^ 16 → b < 2 ^ 16 → IsByte v → absorb a v ≡ absorb b v → a ≡ b
absorb_injective a b v p q r e =
    let e' =
      crc_bits_injective 8 (bit_xor a v) (bit_xor b v) (bit_xor-lt 16 a v p (omega arith))
        (bit_xor-lt 16 b v q (omega arith)) e in
    sym (bit_xor_cancel 16 a v p (omega arith))
    ∙ ap (λ (t : ℕ). bit_xor t v) e'
    ∙ bit_xor_cancel 16 b v q (omega arith)

pub crc_loop-lt : (c : ℕ) (xs : List ℕ) → c < 2 ^ 16 → AreBytes xs → crc_loop c xs < 2 ^ 16
unfolding crc_loop
crc_loop-lt c [] p h = p
crc_loop-lt c (v ∷ xs) p h = crc_loop-lt (absorb c v) xs (absorb-lt c v p h.0) h.1

pub crc_loop-append : (c : ℕ) (xs ys : List ℕ) → crc_loop c (xs ++ ys) ≡ crc_loop (crc_loop c xs) ys
unfolding crc_loop
crc_loop-append c [] ys = refl
crc_loop-append c (v ∷ xs) ys = crc_loop-append (absorb c v) xs ys

pub crc_loop_injective :
    (a b : ℕ) (xs : List ℕ)
    → a < 2 ^ 16
    → b < 2 ^ 16
    → AreBytes xs
    → crc_loop a xs ≡ crc_loop b xs
    → a ≡ b
unfolding crc_loop
crc_loop_injective a b [] p q h e = e
crc_loop_injective a b (v ∷ xs) p q h e = absorb_injective a b v p q h.0 (
    crc_loop_injective (absorb a v) (absorb b v) xs (absorb-lt a v p h.0) (absorb-lt b v q h.0) h.1
      e)
