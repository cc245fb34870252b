-- ===== src/Dict.antt =====
-- Python's `dict` with text keys, in insertion order.
use mvd_edge_agent.Prelude.{
  ◌≡◌, refl, Bool, true, false, ◌||◌, Option, none, some, List, [], ◌∷◌, arith, Text, text_eq,
  text_eq_iff, if◌then◌else◌,
}

abbrev pub Dict {ℓ} : Type ℓ → Type ℓ
Dict V = List (Text × V)

abbrev pub is_some {ℓ} : {A : Type ℓ} → Option A → Bool
is_some none = false
is_some (some a) = true

-- `x in xs` for a list of texts.
unfoldable pub member : Text → List Text → Bool
member x [] = false
member x (y ∷ ys) = text_eq y x || member x ys

module _ {ℓ} {V : Type ℓ} where
  unfoldable pub lookup : Text → Dict V → Option V
  lookup k [] = none
  lookup k ((j, v) ∷ d) = if text_eq j k then some v else lookup k d

  -- `k in d`
  abbrev pub contains : Text → Dict V → Bool
  contains k d = is_some (lookup k d)

  -- `d[k] = v`: an old key keeps its place, a new one comes last.
  unfoldable pub put : Text → V → Dict V → Dict V
  put k v [] = (k, v) ∷ []
  put k v ((j, u) ∷ d) = if text_eq j k then (k, v) ∷ d else (j, u) ∷ put k v d

  -- `del d[k]`
  unfoldable pub remove : Text → Dict V → Dict V
  remove k [] = []
  remove k ((j, v) ∷ d) = if text_eq j k then d else (j, v) ∷ remove k d

  -- No key stands twice, as in every Python dictionary.
  abbrev pub HasUniqueKeys : Dict V → Type 0
  HasUniqueKeys [] = Unit
  HasUniqueKeys ((k, v) ∷ d) = (contains k d ≡ false) × HasUniqueKeys d

  pub lookup-put :
      (k j : Text) (v : V) (d : Dict V)
      → lookup j (put k v d) ≡ (if text_eq k j then some v else lookup j d)
  unfolding lookup put
  lookup-put k j v [] = refl
  lookup-put k j v ((i, u) ∷ d) =
      ground (arith, text_eq_iff k j, text_eq_iff i k, text_eq_iff i j, lookup-put k j v d)

  pub put-HasUniqueKeys :
      (k : Text) (v : V) (d : Dict V) → HasUniqueKeys d → HasUniqueKeys (put k v d)
  unfolding lookup put
  put-HasUniqueKeys k v [] h = (refl, tt)
  put-HasUniqueKeys k v ((j, u) ∷ d) h =
      ground (arith, text_eq_iff j k, text_eq_iff k j, lookup-put k j v d, put-HasUniqueKeys k v d)

  pub lookup-remove :
      (k j : Text) (d : Dict V)
      → HasUniqueKeys d
      → lookup j (remove k d) ≡ (if text_eq k j then none else lookup j d)
  unfolding lookup remove
  lookup-remove k j [] h = ground arith
  lookup-remove k j ((i, u) ∷ d) h =
      ground (arith, text_eq_iff k j, text_eq_iff i k, text_eq_iff i j, lookup-remove k j d)

  pub remove-HasUniqueKeys : (k : Text) (d : Dict V) → HasUniqueKeys d → HasUniqueKeys (remove k d)
  unfolding lookup remove
  remove-HasUniqueKeys k [] h = tt
  remove-HasUniqueKeys k ((j, u) ∷ d) h =
      ground (arith, text_eq_iff k j, lookup-remove k j d, remove-HasUniqueKeys k d)
