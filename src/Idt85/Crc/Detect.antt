-- ===== src/Idt85/Crc/Detect.antt =====
-- Error detection by the checksum of src/mvd_edge/adapters/idt85.py.
use mvd_edge_agent.Prelude.{
  ℕ, ◌≤◌, ◌<◌, ◌^◌, ◌≡◌, ◌≢◌, ◌∙◌, sym, true, false, List, ◌∷◌, ◌++◌, arith, length,
  All-append_left, All-append_right, All-append, Bool-cases, inl, inr,
}
use mvd_edge_agent.Idt85.Crc.{crc_loop, has_valid_crc, IsByte, AreBytes}
use mvd_edge_agent.Idt85.Crc.Rounds.{
  crc_loop-append, crc_loop-lt, crc_loop_injective, absorb, absorb-lt, absorb_injective_byte,
}
use mvd_edge_agent.Idt85.Crc.Residue.{residue, has_valid_crc_iff}

-- A frame that passes has three bytes.
has_valid_crc-long : (r : List ℕ) → has_valid_crc r ≡ true → 3 ≤ length r
unfolding has_valid_crc
has_valid_crc-long r h = ground arith

put_byte :
    (before after : List ℕ) (x y : ℕ)
    → AreBytes (before ++ x ∷ after)
    → IsByte y
    → AreBytes (before ++ y ∷ after)
put_byte before after x y hx hy =
    All-append IsByte before (y ∷ after) (All-append_left IsByte before (x ∷ after) hx)
      (hy, (All-append_right IsByte before (x ∷ after) hx).1)

residue_injective :
    (before after : List ℕ) (x y : ℕ)
    → AreBytes (before ++ x ∷ after)
    → IsByte y
    → residue (before ++ x ∷ after) ≡ residue (before ++ y ∷ after)
    → x ≡ y
unfolding crc_loop
residue_injective before after x y hx hy e =
    let c = residue before in
    let tail = All-append_right IsByte before (x ∷ after) hx in
    let small : c < 2 ^ 16 =
      crc_loop-lt 0xFFFF before (omega arith) (All-append_left IsByte before (x ∷ after) hx) in
    absorb_injective_byte c x y small tail.0 hy (
      crc_loop_injective (absorb c x) (absorb c y) after (absorb-lt c x small tail.0)
        (absorb-lt c y small hy) tail.1
        (sym (crc_loop-append 0xFFFF before (x ∷ after))
          ∙ e
          ∙ crc_loop-append 0xFFFF before (y ∷ after)))

-- Changing one byte of a frame whose checksum is right, whichever byte it is, a trailing one
-- included, gives a frame whose checksum is wrong.
pub has_valid_crc-one_byte :
    (before after : List ℕ) (x y : ℕ)
    → AreBytes (before ++ x ∷ after)
    → IsByte y
    → x ≢ y
    → has_valid_crc (before ++ x ∷ after) ≡ true
    → has_valid_crc (before ++ y ∷ after) ≡ false
has_valid_crc-one_byte before after x y hx hy ne valid =
    elim (Bool-cases (has_valid_crc (before ++ y ∷ after))) [
      | inl both ↦ absurd (
          ne (
            residue_injective before after x y hx hy (
              (has_valid_crc_iff _ hx (has_valid_crc-long _ valid)).0 valid
              ∙ sym (
                  (has_valid_crc_iff _ (put_byte before after x y hx hy)
                      (has_valid_crc-long _ both)).0
                    both))))
      | inr wrong ↦ wrong
    ]
