-- ===== src/Idt85/Crc/Residue.antt =====
-- `has_valid_crc` against an independent description: the checksum over the whole frame, trailer
-- included, is zero.
use Prim.Native.Nat.{bit_xor, bit_or}
use native.Mathlib.Nat.{pow-suc, add_comm}
use mvd_edge_agent.Prelude.{
  zero, suc, false, ltb, ◌==◌, ℕ, ◌+◌, ◌-◌, ◌*◌, ◌^◌, ◌≤◌, ◌<◌, ◌≡◌, ◌↔◌, ap, sym, ◌∙◌, true, List,
  [], ◌∷◌, ◌++◌, arith, length, take, get_or, take-last_two, All-append_left, All-append_right,
  ==_iff,
}
use mvd_edge_agent.Prelude.Bits.{
  bit_xor-lt, bit_xor_cancel, bit_xor_low, bit_or_fields, zero-bit_xor,
}
use mvd_edge_agent.Idt85.Crc.{crc_bit, crc_bits, crc_loop, crc16, has_valid_crc, IsByte, AreBytes}
use mvd_edge_agent.Idt85.Crc.Rounds.{
  absorb, absorb-lt, crc_loop-lt, crc_loop-append, crc_bits_eight_injective,
}

-- What is left of the checksum after the whole frame.
abbrev pub residue : List ℕ → ℕ
residue = crc_loop 0xFFFF

-- Eight rounds shift out a byte of zeros.
crc_bit_even : (q : ℕ) → crc_bit (q * 2) ≡ q
unfolding crc_bit
crc_bit_even q = ground arith

crc_bits_shift : (n q : ℕ) → crc_bits n (q * 2 ^ n) ≡ q
unfolding crc_bits
crc_bits_shift zero q = omega arith
crc_bits_shift (suc n) q =
    let twice : q * 2 ^ suc n ≡ q * 2 ^ n * 2 =
      omega (arith, ap (λ (t : ℕ). q * t) (pow-suc 2 n)) in
    rw (twice, crc_bit_even (q * 2 ^ n)) (crc_bits_shift n q)

xor_self : (a : ℕ) → IsByte a → bit_xor a a ≡ 0
xor_self a h =
    let e : a ≡ 0 * 2 ^ 8 + a = omega arith in ap (λ (t : ℕ). bit_xor t a) e ∙ bit_xor_low 8 0 a h

module _ (c lo hi : ℕ) (pc : c < 2 ^ 16) (pl : IsByte lo) (ph : IsByte hi) where
  -- The two trailing bytes, low byte first, cancel exactly the checksum that they spell.
  absorb_trailer : c ≡ lo + hi * 256 → absorb (absorb c lo) hi ≡ 0
  absorb_trailer e =
      let spelled : c ≡ hi * 2 ^ 8 + lo = omega arith in
      let first : absorb c lo ≡ hi =
        ap (crc_bits 8) (ap (λ (t : ℕ). bit_xor t lo) spelled ∙ bit_xor_low 8 hi lo pl)
        ∙ crc_bits_shift 8 hi in
      ap (λ (t : ℕ). absorb t hi) first ∙ ap (crc_bits 8) (xor_self hi ph) ∙ crc_bits_shift 8 0

  -- Undoing the second byte, and then the first.
  second_of_zero : absorb (absorb c lo) hi ≡ 0 → absorb c lo ≡ hi
  second_of_zero e =
      let d = absorb c lo in
      let small : d < 2 ^ 16 = absorb-lt c lo pc pl in
      let z : bit_xor d hi ≡ 0 =
        crc_bits_eight_injective (bit_xor d hi) 0 (bit_xor-lt 16 d hi small (omega arith))
          (omega arith) (e ∙ sym (crc_bits_shift 8 0)) in
      sym (bit_xor_cancel 16 d hi small (omega arith))
      ∙ ap (λ (t : ℕ). bit_xor t hi) z
      ∙ zero-bit_xor hi

  first_of_zero : absorb c lo ≡ hi → c ≡ lo + hi * 256
  first_of_zero e =
      let fits : hi * 2 ^ 8 + lo < 2 ^ 16 = omega arith in
      let x : bit_xor c lo ≡ hi * 2 ^ 8 =
        crc_bits_eight_injective (bit_xor c lo) (hi * 2 ^ 8) (bit_xor-lt 16 c lo pc (omega arith))
          (omega arith) (e ∙ sym (crc_bits_shift 8 hi)) in
      let back : bit_xor (hi * 2 ^ 8) lo ≡ hi * 2 ^ 8 + lo =
        ap (λ (t : ℕ). bit_xor t lo) (sym (bit_xor_low 8 hi lo pl))
        ∙ bit_xor_cancel 16 (hi * 2 ^ 8 + lo) lo fits (omega arith) in
      sym (bit_xor_cancel 16 c lo pc (omega arith))
      ∙ ap (λ (t : ℕ). bit_xor t lo) x
      ∙ back
      ∙ add_comm (hi * 2 ^ 8) lo

-- Of a body with a trailer: the test of the code, and the residue.
module _ (body : List ℕ) (lo hi : ℕ) (hb : AreBytes body) (pl : IsByte lo) (ph : IsByte hi) where
  start_lt : residue body < 2 ^ 16
  start_lt = crc_loop-lt 0xFFFF body (omega arith) hb

  crc16-eq-residue : crc16 body ≡ residue body
  unfolding crc16
  crc16-eq-residue = omega (arith, start_lt)

  residue-trailer : residue (body ++ lo ∷ hi ∷ []) ≡ absorb (absorb (residue body) lo) hi
  unfolding crc_loop
  residue-trailer = crc_loop-append 0xFFFF body (lo ∷ hi ∷ [])

  pub residue-zero_iff : (residue (body ++ lo ∷ hi ∷ []) ≡ 0) ↔ (crc16 body ≡ lo + hi * 256)
  residue-zero_iff =
      rw (residue-trailer, crc16-eq-residue)
        (
          (λ e.
              first_of_zero (residue body) lo hi start_lt pl ph
                (second_of_zero (residue body) lo hi start_lt pl ph e)),
          absorb_trailer (residue body) lo hi start_lt pl ph,
        )

-- The code's test of a frame's last two bytes holds exactly when the checksum of the whole frame,
-- trailer included, is zero; for any frame of three bytes or more, each below 256.
pub has_valid_crc_iff :
    (response : List ℕ)
    → AreBytes response
    → 3 ≤ length response
    → (has_valid_crc response ≡ true) ↔ (residue response ≡ 0)
unfolding has_valid_crc
has_valid_crc_iff response hr h3 = rw long (rw or_sum (rw (sym split) at parts))
  where
    body : List ℕ
    body = take (length response - 2) response

    lo : ℕ
    lo = get_or response (length response - 2) 0

    hi : ℕ
    hi = get_or response (length response - 1) 0

    split : response ≡ body ++ lo ∷ hi ∷ []
    split = take-last_two response 0 (omega arith)

    whole : AreBytes (body ++ lo ∷ hi ∷ [])
    whole = rw split at hr

    tail : AreBytes (lo ∷ hi ∷ [])
    tail = All-append_right IsByte body (lo ∷ hi ∷ []) whole

    long : ltb (length response) 3 ≡ false
    long = ground arith

    or_sum : bit_or lo (hi * 256) ≡ lo + hi * 256
    or_sum = bit_or_fields 8 lo hi tail.0

    parts : ((crc16 body == lo + hi * 256) ≡ true) ↔ (residue (body ++ lo ∷ hi ∷ []) ≡ 0)
    parts =
        let r =
          residue-zero_iff body lo hi (All-append_left IsByte body (lo ∷ hi ∷ []) whole) tail.0
            tail.1.0 in
        let q = ==_iff (crc16 body) (lo + hi * 256) in (λ e. r.1 (q.0 e), λ e. q.1 (r.0 e))
