-- ===== src/Idt85/Inventory/Epc.antt =====
-- The text of a tag and its bytes.
use mvd_edge_agent.Prelude.{
  ℕ, ◌/◌, ◌%◌, ◌<◌, ◌≡◌, refl, List, [], ◌∷◌, arith, hex, upper, upper_char, hex_digit,
}
use mvd_edge_agent.Idt85.Crc.{AreBytes}
use mvd_edge_agent.Idt85.Inventory.{epc_text}

-- A digit in upper case, and back.
abbrev digit_text : ℕ → ℕ
digit_text n = upper_char (hex_digit n)

digit_text_injective : (m n : ℕ) → m < 16 → n < 16 → digit_text m ≡ digit_text n → m ≡ n
digit_text_injective m n p q h = ground arith

-- Two tags of bytes below 256 with the same text are the same bytes.
pub epc_text_injective : (a b : List ℕ) → AreBytes a → AreBytes b → epc_text a ≡ epc_text b → a ≡ b
unfolding epc_text hex upper
epc_text_injective [] [] p q h = refl
epc_text_injective [] (y ∷ b) p q h = cc
epc_text_injective (x ∷ a) [] p q h = cc
epc_text_injective (x ∷ a) (y ∷ b) p q h = ground (
  arith,
  digit_text_injective (x / 16) (y / 16),
  digit_text_injective (x % 16) (y % 16),
  epc_text_injective a b p.1 q.1,
)
