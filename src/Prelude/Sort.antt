-- ===== src/Prelude/Sort.antt =====
-- Sorting by a Boolean order, stable as Python's `sorted` and as SQLite's `order by` of unique keys.
use mathlib.Core.List.{Perm}
use mathlib.Core.List.Perm
use mvd_edge_agent.Prelude.{
  ℕ, zero, suc, ◌+◌, length, ◌≡◌, refl, Bool, true, false, List, [], ◌∷◌, if◌then◌else◌, take, drop,
  All, arith, Bool-cases, inl, inr,
}

module _ {ℓ} {A : Type ℓ} (le : A → A → Bool) where
  unfoldable pub insert_by : A → List A → List A
  insert_by x [] = x ∷ []
  insert_by x (y ∷ ys) = if le x y then x ∷ y ∷ ys else y ∷ insert_by x ys

  unfoldable pub sort_by : List A → List A
  sort_by [] = []
  sort_by (x ∷ xs) = insert_by x (sort_by xs)

  -- Every entry comes before all that stand behind it.
  abbrev pub IsSorted : List A → Type 0
  IsSorted [] = Unit
  IsSorted (x ∷ xs) = All (λ y. le x y ≡ true) xs × IsSorted xs

  insert_by-perm : (x : A) (xs : List A) → Perm (insert_by x xs) (x ∷ xs)
  unfolding insert_by
  insert_by-perm x [] = Perm.refl (x ∷ [])
  insert_by-perm x (y ∷ ys) = elim (Bool-cases (le x y)) [
    | inl below ↦ rw below (Perm.refl (x ∷ y ∷ ys))
    | inr above ↦ rw above (Perm.trans (Perm.cons y (insert_by-perm x ys)) (Perm.swap x y ys))
  ]

  -- Sorting keeps the entries, each as often as it was.
  pub sort_by-perm : (xs : List A) → Perm (sort_by xs) xs
  unfolding sort_by
  sort_by-perm [] = Perm.refl []
  sort_by-perm (x ∷ xs) = Perm.trans (insert_by-perm x (sort_by xs)) (Perm.cons x (sort_by-perm xs))

  module _ {κ} (P : A → Type κ) where
    pub insert_by-All : (x : A) (xs : List A) → P x → All P xs → All P (insert_by x xs)
    unfolding insert_by
    insert_by-All x [] p a = (p, tt)
    insert_by-All x (y ∷ ys) p a = elim (Bool-cases (le x y)) [
      | inl below ↦ rw below (p, a)
      | inr above ↦ rw above (a.0, insert_by-All x ys p a.1)
    ]

    pub sort_by-All : (xs : List A) → All P xs → All P (sort_by xs)
    unfolding sort_by
    sort_by-All [] a = tt
    sort_by-All (x ∷ xs) a = insert_by-All x (sort_by xs) a.0 (sort_by-All xs a.1)

  length-insert_by : (x : A) (xs : List A) → length (insert_by x xs) ≡ length xs + 1
  unfolding insert_by
  length-insert_by x [] = omega arith
  length-insert_by x (y ∷ ys) = ground (arith, length-insert_by x ys)

  pub length-sort_by : (xs : List A) → length (sort_by xs) ≡ length xs
  unfolding sort_by
  length-sort_by [] = refl
  length-sort_by (x ∷ xs) = omega (arith, length-insert_by x (sort_by xs), length-sort_by xs)

  module _ (total : (x y : A) → le x y ≡ false → le y x ≡ true)
      (trans : (x y z : A) → le x y ≡ true → le y z ≡ true → le x z ≡ true) where
    All-above :
        (x y : A) (ys : List A)
        → le x y ≡ true
        → All (λ z. le y z ≡ true) ys
        → All (λ z. le x z ≡ true) ys
    All-above x y [] h k = tt
    All-above x y (z ∷ zs) h k = (trans x y z h k.0, All-above x y zs h k.1)

    All-insert :
        (x y : A) (ys : List A)
        → le y x ≡ true
        → All (λ z. le y z ≡ true) ys
        → All (λ z. le y z ≡ true) (insert_by x ys)
    unfolding insert_by
    All-insert x y [] h k = (h, tt)
    All-insert x y (z ∷ zs) h k = elim (Bool-cases (le x z)) [
      | inl below ↦ rw below (h, k)
      | inr above ↦ rw above (k.0, All-insert x y zs h k.1)
    ]

    insert_by-IsSorted : (x : A) (xs : List A) → IsSorted xs → IsSorted (insert_by x xs)
    unfolding insert_by
    insert_by-IsSorted x [] s = (tt, tt)
    insert_by-IsSorted x (y ∷ ys) s = elim (Bool-cases (le x y)) [
      | inl below ↦ rw below ((below, All-above x y ys below s.0), s)
      | inr above ↦ rw above (All-insert x y ys (total x y above) s.0, insert_by-IsSorted x ys s.1)
    ]

    pub sort_by-IsSorted : (xs : List A) → IsSorted (sort_by xs)
    unfolding sort_by
    sort_by-IsSorted [] = tt
    sort_by-IsSorted (x ∷ xs) = insert_by-IsSorted x (sort_by xs) (sort_by-IsSorted xs)

  pub take-IsSorted : (n : ℕ) (xs : List A) → IsSorted xs → IsSorted (take n xs)
  take-IsSorted zero xs s = tt
  take-IsSorted (suc n) [] s = tt
  take-IsSorted (suc n) (x ∷ xs) s = (all_take n xs s.0, take-IsSorted n xs s.1)
    where
      all_take :
          (m : ℕ) (ys : List A) → All (λ y. le x y ≡ true) ys → All (λ y. le x y ≡ true) (take m ys)
      all_take zero ys h = tt
      all_take (suc m) [] h = tt
      all_take (suc m) (y ∷ ys) h = (h.0, all_take m ys h.1)

  -- What is taken from the front of a sorted list comes before what is left.
  pub take-before-drop :
      (n : ℕ) (xs : List A)
      → IsSorted xs
      → All (λ x. All (λ y. le x y ≡ true) (drop n xs)) (take n xs)
  take-before-drop zero xs s = tt
  take-before-drop (suc n) [] s = tt
  take-before-drop (suc n) (x ∷ xs) s = (all_drop n xs s.0, take-before-drop n xs s.1)
    where
      all_drop :
          (m : ℕ) (ys : List A) → All (λ y. le x y ≡ true) ys → All (λ y. le x y ≡ true) (drop m ys)
      all_drop zero ys h = h
      all_drop (suc m) [] h = tt
      all_drop (suc m) (y ∷ ys) h = all_drop m ys h.1
