-- ===== src/Version.antt =====
-- The version of the agent (src/mvd_edge/__init__.py).
use mvd_edge_agent.Prelude.{
  ℕ, ◌≡◌, refl, Bool, true, false, ◌==◌, Option, none, some, [], ◌∷◌, ◌++◌, Text, codes, text_eq,
  is_space, if◌then◌else◌,
}

-- What follows `\s*`.
unfoldable pub after_spaces : Text → Text
after_spaces [] = []
after_spaces (c ∷ t) = elim (is_space c) [ true ↦ after_spaces t | false ↦ c ∷ t ]

-- What follows a given character.
abbrev pub after_char : ℕ → Text → Option Text
after_char wanted [] = none
after_char wanted (c ∷ t) = if c == wanted then some t else none

-- What follows a given text.
unfoldable pub after_text : Text → Text → Option Text
after_text [] t = some t
after_text (p ∷ part) [] = none
after_text (p ∷ part) (c ∷ t) = elim (p == c) [ true ↦ after_text part t | false ↦ none ]

-- The text up to the next quotation mark.
unfoldable pub up_to_quote : Text → Option Text
up_to_quote [] = none
up_to_quote (c ∷ t) = elim (c == b'"') [
  | true ↦ some []
  | false ↦ elim (up_to_quote t) [ none ↦ none | some value ↦ some (c ∷ value) ]
]

-- `[^"]+` takes at least one character.
abbrev pub unless_empty : Option Text → Option Text
unless_empty none = none
unless_empty (some []) = none
unless_empty (some (c ∷ t)) = some (c ∷ t)

abbrev pub then_value : Option Text → Option Text
then_value none = none
then_value (some t) = unless_empty (up_to_quote t)

abbrev pub then_quote : Option Text → Option Text
then_quote none = none
then_quote (some t) = then_value (after_char b'"' (after_spaces t))

abbrev pub then_equals : Option Text → Option Text
then_equals none = none
then_equals (some t) = then_quote (after_char b'=' (after_spaces t))

-- The group of `version\s*=\s*"([^"]+)"` at the beginning of a text.
abbrev pub version_here : Text → Option Text
version_here t = then_equals (after_text (codes "version") t)

-- `re.search` with `^` and `re.MULTILINE`: the first match at the beginning of a line; the flag says
-- whether a line begins here.
unfoldable pub search_version : Bool → Text → Option Text
search_version begins [] = none
search_version begins (c ∷ t) =
    elim (elim begins as (λ _. Option Text) [ true ↦ version_here (c ∷ t) | false ↦ none ]) [
      | some version ↦ some version
      | none ↦ search_version (c == 10) t
    ]

-- `_version_from_pyproject`, with the text of the file, if it is there.
unfoldable pub version_from_pyproject : Option Text → Text
version_from_pyproject none = codes "0+unknown"
version_from_pyproject (some text) = elim (search_version true text) [
  | some version ↦ version
  | none ↦ codes "0+unknown"
]

-- `__version__`; the second text is that of the installed package, if there is one.
unfoldable pub version_of : Option Text → Option Text → Text
version_of pyproject installed =
    let version = version_from_pyproject pyproject in
    if text_eq version (codes "0+unknown")
    then (elim installed [ some known ↦ known | none ↦ version ])
    else version

version_found :
    version_of
      (some (codes "[project]" ++ 10 ∷ codes "version = " ++ b'"' ∷ codes "1.2" ++ b'"' ∷ []))
      none
    ≡ codes "1.2"
unfolding version_of version_from_pyproject search_version after_text after_spaces up_to_quote
    text_eq
version_found = refl
