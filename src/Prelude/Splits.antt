-- ===== src/Prelude/Splits.antt =====
-- Cutting texts as Python does: `split` and `splitlines`.
use mvd_edge_agent.Prelude.{
  ℕ, zero, suc, Bool, true, false, ◌&&◌, ◌||◌, ◌==◌, leb, List, [], ◌∷◌, ◌++◌, Text, is_space, All,
  append-nil, append_assoc, arith, ◌≡◌, refl,
}

-- `c` in front of the first piece.
abbrev pub onto_first : ℕ → List Text → List Text
onto_first c [] = (c ∷ []) ∷ []
onto_first c (piece ∷ pieces) = (c ∷ piece) ∷ pieces

-- `text.split(sep)`
unfoldable pub split : ℕ → Text → List Text
split sep [] = [] ∷ []
split sep (c ∷ t) = elim (c == sep) [ true ↦ [] ∷ split sep t | false ↦ onto_first c (split sep t) ]

-- `text.split(sep, cuts)`
unfoldable pub split_max : ℕ → ℕ → Text → List Text
split_max sep zero t = t ∷ []
split_max sep (suc cuts) [] = [] ∷ []
split_max sep (suc cuts) (c ∷ t) = elim (c == sep) [
  | true ↦ [] ∷ split_max sep cuts t
  | false ↦ onto_first c (split_max sep (suc cuts) t)
]

-- The piece so far, if it is not empty.
abbrev pub flushed : Text → List Text
flushed [] = []
flushed (c ∷ word) = (c ∷ word) ∷ []

-- The rest of a text behind the beginning of a word.
unfoldable pub words_from : Text → Text → List Text
words_from word [] = flushed word
words_from word (c ∷ t) = elim (is_space c) [
  | true ↦ flushed word ++ words_from [] t
  | false ↦ words_from (word ++ c ∷ []) t
]

-- `text.split()`
abbrev pub words : Text → List Text
words t = words_from [] t

-- The characters at which `splitlines` cuts.
abbrev pub is_break : ℕ → Bool
is_break c = leb 10 c && leb c 13 || leb 28 c && leb c 30 || c == 0x85 || c == 0x2028 || c == 0x2029

-- The rest of a text behind the beginning of a line; `after_cr` says that a carriage return ended the
-- line before, so that a line feed belongs to it.
unfoldable pub lines_from : Bool → Text → Text → List Text
lines_from after_cr line [] = flushed line
lines_from after_cr line (c ∷ t) = elim (after_cr && c == 10) [
  | true ↦ lines_from false line t
  | false ↦ elim (is_break c) [
    | true ↦ line ∷ lines_from (c == 13) [] t
    | false ↦ lines_from false (line ++ c ∷ []) t
  ]
]

-- `text.splitlines()`
abbrev pub splitlines : Text → List Text
splitlines t = lines_from false [] t

-- A text without a character.
abbrev pub Lacks : ℕ → Text → Type 0
Lacks sep t = All (λ c. (c == sep) ≡ false) t

-- A cut behind a piece without the separator gives that piece.
pub split_max-append :
    (sep cuts : ℕ) (piece t : Text)
    → Lacks sep piece
    → split_max sep (suc cuts) (piece ++ sep ∷ t) ≡ piece ∷ split_max sep cuts t
unfolding split_max
split_max-append sep cuts [] t lacks = ground arith
split_max-append sep cuts (c ∷ piece) t lacks =
    ground (arith, lacks, split_max-append sep cuts piece t lacks.1)

pub split_max-zero : (sep : ℕ) (t : Text) → split_max sep zero t ≡ t ∷ []
unfolding split_max
split_max-zero sep t = refl

-- A text of one line.
abbrev pub IsLine : Text → Type 0
IsLine t = All (λ c. is_break c ≡ false) t

lines_from-append :
    (line t rest : Text)
    → IsLine t
    → lines_from false line (t ++ 10 ∷ rest) ≡ (line ++ t) ∷ lines_from false [] rest
unfolding lines_from
lines_from-append line [] rest is_line = ground (arith, append-nil line)
lines_from-append line (c ∷ t) rest is_line = ground (
  arith,
  is_line,
  lines_from-append (line ++ c ∷ []) t rest is_line.1,
  append_assoc line (c ∷ []) t,
)

-- The first line of a text is the part before its first line feed.
pub splitlines-append :
    (line rest : Text) → IsLine line → splitlines (line ++ 10 ∷ rest) ≡ line ∷ splitlines rest
splitlines-append line rest is_line = lines_from-append [] line rest is_line
