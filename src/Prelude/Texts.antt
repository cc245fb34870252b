-- ===== src/Prelude/Texts.antt =====
-- Text as the list of its code points: the agent walks, splits and compares its texts.
use Prim.Native.Nat.{ℕ, ◌+◌, ◌-◌, ◌/◌, ◌%◌}
use Prim.Native.Char.{code}
use Prim.Native.String.{String}
use mathlib.Core.Path.{◌≡◌, refl, ap, ◌∙◌}
use mathlib.Core.Logic.{◌↔◌}
use mathlib.Core.Bool.{Bool, true, false, not, ◌&&◌, ◌||◌}
use mathlib.Core.List.{List, [], ◌∷◌, ◌++◌, map, reverse, reverse-cons}
use native.Mathlib.Omega.{arith}
use mvd_edge_agent.Prelude.Tests.{ltb, leb, ◌==◌, if◌then◌else◌}

abbrev pub Text : Type 0
Text = List ℕ

-- A text literal.
abbrev pub codes : String → Text
codes String.[] = []
codes (String.◌∷◌ c s) = code c ∷ codes s

-- `==` on texts.
unfoldable pub text_eq : Text → Text → Bool
text_eq [] [] = true
text_eq [] (b ∷ t) = false
text_eq (a ∷ s) [] = false
text_eq (a ∷ s) (b ∷ t) = a == b && text_eq s t

pub text_eq→eq : (s t : Text) → text_eq s t ≡ true → s ≡ t
unfolding text_eq
text_eq→eq [] [] h = refl
text_eq→eq [] (b ∷ t) h = cc
text_eq→eq (a ∷ s) [] h = cc
text_eq→eq (a ∷ s) (b ∷ t) h = ground (arith, text_eq→eq s t)

pub text_eq_refl : (s : Text) → text_eq s s ≡ true
unfolding text_eq
text_eq_refl [] = refl
text_eq_refl (a ∷ s) = ground (arith, text_eq_refl s)

pub text_eq_iff : (s t : Text) → (text_eq s t ≡ true) ↔ (s ≡ t)
text_eq_iff s t = (text_eq→eq s t, λ e. rw e (text_eq_refl t))

pub text_eq_sym : (s t : Text) → text_eq s t ≡ text_eq t s
unfolding text_eq
text_eq_sym [] [] = refl
text_eq_sym [] (b ∷ t) = refl
text_eq_sym (a ∷ s) [] = refl
text_eq_sym (a ∷ s) (b ∷ t) = ground (arith, text_eq_sym s t)

-- `str.upper`, `str.lower` and `str.strip`'s notion of white space, on ASCII characters.
abbrev pub upper_char : ℕ → ℕ
upper_char c = if leb b'a' c && leb c b'z' then c - 32 else c

abbrev pub lower_char : ℕ → ℕ
lower_char c = if leb b'A' c && leb c b'Z' then c + 32 else c

unfoldable pub upper : Text → Text
upper = map upper_char

unfoldable pub lower : Text → Text
lower = map lower_char

-- `"".join(f"{b:02x}" for b in bytes)`, which is `bytes.hex()`.
abbrev pub hex_digit : ℕ → ℕ
hex_digit n = if ltb n 10 then n + 48 else n + 87

unfoldable pub hex : List ℕ → Text
hex [] = []
hex (b ∷ bytes) = hex_digit (b / 16) ∷ hex_digit (b % 16) ∷ hex bytes

-- The order of texts: by the first code point at which they differ.
unfoldable pub text_le : Text → Text → Bool
text_le [] t = true
text_le (a ∷ s) [] = false
text_le (a ∷ s) (b ∷ t) = ltb a b || a == b && text_le s t

pub text_le_total : (s t : Text) → text_le s t ≡ false → text_le t s ≡ true
unfolding text_le
text_le_total [] t h = cc
text_le_total (a ∷ s) [] h = refl
text_le_total (a ∷ s) (b ∷ t) h = ground (arith, text_le_total s t)

pub text_le_trans : (s t u : Text) → text_le s t ≡ true → text_le t u ≡ true → text_le s u ≡ true
unfolding text_le
text_le_trans [] t u h k = refl
text_le_trans (a ∷ s) [] u h k = cc
text_le_trans (a ∷ s) (b ∷ t) [] h k = cc
text_le_trans (a ∷ s) (b ∷ t) (c ∷ u) h k = ground (arith, text_le_trans s t u)

pub text_le_antisym : (s t : Text) → text_le s t ≡ true → text_le t s ≡ true → s ≡ t
unfolding text_le
text_le_antisym [] [] h k = refl
text_le_antisym [] (b ∷ t) h k = cc
text_le_antisym (a ∷ s) [] h k = cc
text_le_antisym (a ∷ s) (b ∷ t) h k = ground (arith, text_le_antisym s t)

-- `str.isspace` of one character.
abbrev pub is_space : ℕ → Bool
is_space c =
    leb 9 c && leb c 13
    || leb 28 c && leb c 32
    || c == 0x85
    || c == 0xA0
    || c == 0x1680
    || leb 0x2000 c && leb c 0x200A
    || c == 0x2028
    || c == 0x2029
    || c == 0x202F
    || c == 0x205F
    || c == 0x3000

strip_left : Text → Text
strip_left [] = []
strip_left (c ∷ t) = if is_space c then strip_left t else c ∷ t

-- `str.strip()`
unfoldable pub strip : Text → Text
unfolding strip_left
strip t = reverse (strip_left (reverse (strip_left t)))

-- `str.replace` of one character by another.
unfoldable pub replace_char : ℕ → ℕ → Text → Text
replace_char old new [] = []
replace_char old new (c ∷ t) = (if c == old then new else c) ∷ replace_char old new t

-- Whether a text has a character that is no white space.
abbrev pub has_ink : Text → Bool
has_ink [] = false
has_ink (c ∷ t) = not (is_space c) || has_ink t

pub has_ink-append : (s t : Text) → has_ink (s ++ t) ≡ (has_ink s || has_ink t)
has_ink-append [] t = refl
has_ink-append (c ∷ s) t = ground (arith, has_ink-append s t)

or_last : (a b : Bool) → (a || (b || false)) ≡ (b || a)
or_last a b = ground arith

has_ink-reverse : (t : Text) → has_ink (reverse t) ≡ has_ink t
has_ink-reverse [] = refl
has_ink-reverse (c ∷ t) =
    ap has_ink (reverse-cons c t)
    ∙ has_ink-append (reverse t) (c ∷ [])
    ∙ or_last (has_ink (reverse t)) (not (is_space c))
    ∙ ap (λ (b : Bool). not (is_space c) || b) (has_ink-reverse t)

has_ink-strip_left : (t : Text) → has_ink (strip_left t) ≡ has_ink t
unfolding strip_left
has_ink-strip_left [] = refl
has_ink-strip_left (c ∷ t) = ground (arith, has_ink-strip_left t)

pub has_ink-strip : (t : Text) → has_ink (strip t) ≡ has_ink t
unfolding strip
has_ink-strip t =
    has_ink-reverse (strip_left (reverse (strip_left t)))
    ∙ has_ink-strip_left (reverse (strip_left t))
    ∙ has_ink-reverse (strip_left t)
    ∙ has_ink-strip_left t
