-- ===== src/Prelude/Bits.antt =====
-- Laws of `^` and `|` on numbers at variables, from the recursion on binary digits that the native
-- operations stand for.
use Prim.Native.Nat.{max, digits, bitwise, differ, bit_xor, bit_or, bit_xor-bitwise, bit_or-bitwise}
use native.Mathlib.Nat.{pow-suc}
use mvd_edge_agent.Prelude.{
  ℕ, zero, suc, ◌+◌, ◌*◌, ◌/◌, ◌%◌, ◌^◌, ◌≤◌, ◌<◌, ◌≡◌, refl, sym, ap, ◌∙◌, arith,
}

differ_bits : (x y : ℕ) → x < 2 → y < 2 → differ x y ≡ (x + y) % 2
differ_bits zero y p q = omega arith
differ_bits (suc zero) zero p q = refl
differ_bits (suc zero) (suc zero) p q = refl
differ_bits (suc zero) (suc (suc y)) p q = absurd (omega arith)
differ_bits (suc (suc x)) y p q = absurd (omega arith)

module _ (combine : ℕ → ℕ → ℕ) where
  -- The digits, with as many rounds as the first argument says.
  abbrev combined : ℕ → ℕ → ℕ → ℕ
  combined = digits (λ y. y) combine

  combined-zero : (rounds y : ℕ) → combined rounds 0 y ≡ combined 0 0 y
  combined-zero zero y = refl
  combined-zero (suc rounds) y = refl

  -- More rounds than the number add nothing.
  combined_more : (many few x y : ℕ) → few ≤ many → x ≤ few → combined many x y ≡ combined few x y
  combined_more many few zero y le small = combined-zero many y ∙ sym (combined-zero few y)
  combined_more many zero (suc x) y le small = absurd (omega arith)
  combined_more zero (suc few) (suc x) y le small = absurd (omega arith)
  combined_more (suc many) (suc few) (suc x) y le small =
      rw (combined_more many few (suc x / 2) (y / 2) (omega arith) (omega arith))

  -- The lowest digit, and the rest.
  bitwise-suc :
      (x y : ℕ)
      → bitwise (λ y. y) combine (suc x) y
        ≡ bitwise (λ y. y) combine (suc x / 2) (y / 2) * 2 + combine (suc x % 2) (y % 2)
  bitwise-suc x y =
      let half = suc x / 2 in
      omega (arith, combined_more x half half (y / 2) (omega arith) (omega arith))

pub bit_or-halves : (x y : ℕ) → bit_or x y ≡ bit_or (x / 2) (y / 2) * 2 + max (x % 2) (y % 2)
bit_or-halves zero y = simp bit_or-bitwise (omega arith)
bit_or-halves (suc x) y = simp bit_or-bitwise (bitwise-suc max x y)

differ-halves : (a b : ℕ) → bit_xor a b ≡ bit_xor (a / 2) (b / 2) * 2 + differ (a % 2) (b % 2)
differ-halves zero b = simp bit_xor-bitwise (omega arith)
differ-halves (suc a) b = simp bit_xor-bitwise (bitwise-suc differ a b)

pub bit_xor-halves : (a b : ℕ) → bit_xor a b ≡ bit_xor (a / 2) (b / 2) * 2 + (a % 2 + b % 2) % 2
bit_xor-halves a b =
    differ-halves a b
    ∙ ap (λ (t : ℕ). bit_xor (a / 2) (b / 2) * 2 + t)
        (differ_bits (a % 2) (b % 2) (omega arith) (omega arith))

pub zero-bit_xor : (a : ℕ) → bit_xor 0 a ≡ a
zero-bit_xor a = bit_xor-bitwise 0 a

bit_xor-zero_fuel : (n a : ℕ) → a ≤ n → bit_xor a 0 ≡ a
bit_xor-zero_fuel n zero h = zero-bit_xor 0
bit_xor-zero_fuel zero (suc a) h = absurd (omega arith)
bit_xor-zero_fuel (suc n) (suc a) h =
    omega (arith, bit_xor-halves (suc a) 0, bit_xor-zero_fuel n (suc a / 2) (omega arith))

pub bit_xor-zero : (a : ℕ) → bit_xor a 0 ≡ a
bit_xor-zero a = bit_xor-zero_fuel a a (omega arith)

-- `^` stays within the width of its arguments.
pub bit_xor-lt : (k a b : ℕ) → a < 2 ^ k → b < 2 ^ k → bit_xor a b < 2 ^ k
bit_xor-lt zero zero b p q = omega (arith, zero-bit_xor b)
bit_xor-lt zero (suc a) b p q = absurd (omega arith)
bit_xor-lt (suc k) a b p q = omega (
  arith,
  bit_xor-halves a b,
  pow-suc 2 k,
  bit_xor-lt k (a / 2) (b / 2) (omega (arith, pow-suc 2 k)) (omega (arith, pow-suc 2 k)),
)

-- The same mask twice gives back the number; the width is a number of digits of both.
pub bit_xor_cancel : (k a m : ℕ) → a < 2 ^ k → m < 2 ^ k → bit_xor (bit_xor a m) m ≡ a
bit_xor_cancel zero a m p q =
    let a0 : a ≡ 0 = omega arith in
    let m0 : m ≡ 0 = omega arith in rw (a0, m0) (bit_xor-zero (bit_xor 0 0) ∙ bit_xor-zero 0)
bit_xor_cancel (suc k) a m p q =
    let half : bit_xor a m / 2 ≡ bit_xor (a / 2) (m / 2) = omega (arith, bit_xor-halves a m) in
    let ih =
      bit_xor_cancel k (a / 2) (m / 2) (omega (arith, pow-suc 2 k)) (omega (arith, pow-suc 2 k)) in
    let last : bit_xor (bit_xor a m / 2) (m / 2) ≡ a / 2 = rw half ih in
    omega (arith, bit_xor-halves a m, bit_xor-halves (bit_xor a m) m, last)

pub bit_xor_comm : (k a m : ℕ) → a < 2 ^ k → m < 2 ^ k → bit_xor a m ≡ bit_xor m a
bit_xor_comm zero a m p q =
    let a0 : a ≡ 0 = omega arith in let m0 : m ≡ 0 = omega arith in rw (a0, m0)
bit_xor_comm (suc k) a m p q = omega (
  arith,
  bit_xor-halves a m,
  bit_xor-halves m a,
  bit_xor_comm k (a / 2) (m / 2) (omega (arith, pow-suc 2 k)) (omega (arith, pow-suc 2 k)),
)

pub bit_xor_cancel_left : (k a m : ℕ) → a < 2 ^ k → m < 2 ^ k → bit_xor a (bit_xor a m) ≡ m
bit_xor_cancel_left k a m p q =
    bit_xor_comm k a (bit_xor a m) p (bit_xor-lt k a m p q)
    ∙ ap (λ (t : ℕ). bit_xor t a) (bit_xor_comm k a m p q)
    ∙ bit_xor_cancel k m a q p

-- A bit above the first number's width is kept.
pub bit_xor_top : (k a m : ℕ) → a < 2 ^ k → m < 2 ^ k → bit_xor a (2 ^ k + m) ≡ 2 ^ k + bit_xor a m
bit_xor_top zero a m p q =
    let a0 : a ≡ 0 = omega arith in let m0 : m ≡ 0 = omega arith in rw (a0, m0) refl
bit_xor_top (suc k) a m p q =
    let half : (2 ^ suc k + m) / 2 ≡ 2 ^ k + m / 2 = omega (arith, pow-suc 2 k) in
    let ih =
      bit_xor_top k (a / 2) (m / 2) (omega (arith, pow-suc 2 k)) (omega (arith, pow-suc 2 k)) in
    let top : bit_xor (a / 2) ((2 ^ suc k + m) / 2) ≡ 2 ^ k + bit_xor (a / 2) (m / 2) =
      rw half ih in
    omega (arith, pow-suc 2 k, bit_xor-halves a m, bit_xor-halves a (2 ^ suc k + m), top)

-- The lowest `k` digits cancel.
pub bit_xor_low : (k q r : ℕ) → r < 2 ^ k → bit_xor (q * 2 ^ k + r) r ≡ q * 2 ^ k
bit_xor_low zero q r h =
    let r0 : r ≡ 0 = omega arith in rw r0 (bit_xor-zero (q * 2 ^ 0 + 0) ∙ omega arith)
bit_xor_low (suc k) q r h =
    let twice : q * 2 ^ suc k ≡ q * 2 ^ k * 2 =
      omega (arith, ap (λ (t : ℕ). q * t) (pow-suc 2 k)) in
    let half : (q * 2 ^ suc k + r) / 2 ≡ q * 2 ^ k + r / 2 = omega (arith, twice) in
    let ih = bit_xor_low k q (r / 2) (omega (arith, pow-suc 2 k)) in
    let rest : bit_xor ((q * 2 ^ suc k + r) / 2) (r / 2) ≡ q * 2 ^ k = rw half ih in
    omega (arith, bit_xor-halves (q * 2 ^ suc k + r) r, twice, rest)

bit_or-zero_fuel : (n a : ℕ) → a ≤ n → bit_or a 0 ≡ a
bit_or-zero_fuel n zero h = refl
bit_or-zero_fuel zero (suc a) h = absurd (omega arith)
bit_or-zero_fuel (suc n) (suc a) h =
    omega (arith, bit_or-halves (suc a) 0, bit_or-zero_fuel n (suc a / 2) (omega arith))

-- `lo | (hi << k)` is a sum when `lo` has `k` digits.
pub bit_or_fields : (k lo hi : ℕ) → lo < 2 ^ k → bit_or lo (hi * 2 ^ k) ≡ lo + hi * 2 ^ k
bit_or_fields zero lo hi h =
    let l0 : lo ≡ 0 = omega arith in rw l0 (bit_or-bitwise 0 (hi * 2 ^ 0) ∙ omega arith)
bit_or_fields (suc k) lo hi h =
    let twice : hi * 2 ^ suc k ≡ hi * 2 ^ k * 2 =
      omega (arith, ap (λ (t : ℕ). hi * t) (pow-suc 2 k)) in
    let half : hi * 2 ^ suc k / 2 ≡ hi * 2 ^ k = omega (arith, twice) in
    let ih = bit_or_fields k (lo / 2) hi (omega (arith, pow-suc 2 k)) in
    let rest : bit_or (lo / 2) (hi * 2 ^ suc k / 2) ≡ lo / 2 + hi * 2 ^ k = rw half ih in
    omega (arith, bit_or-halves lo (hi * 2 ^ suc k), twice, rest)
