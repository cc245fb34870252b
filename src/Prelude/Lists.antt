-- ===== src/Prelude/Lists.antt =====
-- Lists measured and indexed by native numbers, under the library's names.
use Prim.Native.Nat.{ℕ, zero, suc, ◌+◌, ◌-◌, ◌≤◌, ◌<◌, min}
use mathlib.Core.Path.{◌≡◌, refl, ap, sym, ◌∙◌}
use mathlib.Core.Bool.{Bool}
use mathlib.Core.List.{List, [], ◌∷◌, ◌++◌, map}
use native.Mathlib.Omega.{arith}
use mvd_edge_agent.Prelude.Tests.{if◌then◌else◌}

module _ {ℓ} {A : Type ℓ} where
  abbrev pub length : List A → ℕ
  length [] = 0
  length (x ∷ xs) = suc (length xs)

  abbrev pub get_or : List A → ℕ → A → A
  get_or [] i d = d
  get_or (x ∷ xs) zero d = x
  get_or (x ∷ xs) (suc i) d = get_or xs i d

  abbrev pub take : ℕ → List A → List A
  take zero xs = []
  take (suc n) [] = []
  take (suc n) (x ∷ xs) = x ∷ take n xs

  abbrev pub drop : ℕ → List A → List A
  drop zero xs = xs
  drop (suc n) [] = []
  drop (suc n) (x ∷ xs) = drop n xs

  abbrev pub All {κ} : (A → Type κ) → List A → Type κ
  All P [] = Unit
  All P (x ∷ xs) = P x × All P xs

  -- The entries that pass a Boolean test.
  abbrev pub keep : (A → Bool) → List A → List A
  keep p [] = []
  keep p (x ∷ xs) = if p x then x ∷ keep p xs else keep p xs

  pub length-append : (xs ys : List A) → length (xs ++ ys) ≡ length xs + length ys
  length-append [] ys = omega arith
  length-append (x ∷ xs) ys = omega (arith, length-append xs ys)

module _ {ℓ} {A : Type ℓ} where
  pub take-append-drop : (n : ℕ) (xs : List A) → take n xs ++ drop n xs ≡ xs
  take-append-drop zero xs = refl
  take-append-drop (suc n) [] = refl
  take-append-drop (suc n) (x ∷ xs) = rw (take-append-drop n xs)

  pub length-take : (n : ℕ) (xs : List A) → length (take n xs) ≡ min n (length xs)
  length-take zero xs = omega arith
  length-take (suc n) [] = omega arith
  length-take (suc n) (x ∷ xs) = omega (arith, length-take n xs)

  pub length-drop : (n : ℕ) (xs : List A) → length (drop n xs) ≡ length xs - n
  length-drop zero xs = omega arith
  length-drop (suc n) [] = omega arith
  length-drop (suc n) (x ∷ xs) = omega (arith, length-drop n xs)

  pub length-map {κ} : {B : Type κ} (xs : List A) (f : A → B) → length (map f xs) ≡ length xs
  length-map [] f = refl
  length-map (x ∷ xs) f = ap suc (length-map xs f)

  pub take-length_append : (xs ys : List A) → take (length xs) (xs ++ ys) ≡ xs
  take-length_append [] ys = refl
  take-length_append (x ∷ xs) ys = rw (take-length_append xs ys)

  pub drop-length_append : (xs ys : List A) → drop (length xs) (xs ++ ys) ≡ ys
  drop-length_append [] ys = refl
  drop-length_append (x ∷ xs) ys = drop-length_append xs ys

  pub get_or-length_append :
      (xs : List A) (y : A) (ys : List A) (d : A) → get_or (xs ++ y ∷ ys) (length xs) d ≡ y
  get_or-length_append [] y ys d = refl
  get_or-length_append (x ∷ xs) y ys d = get_or-length_append xs y ys d

  pub drop-suc :
      (p : ℕ) (xs : List A) (d : A) → p < length xs → drop p xs ≡ get_or xs p d ∷ drop (suc p) xs
  drop-suc p [] d h = elim h [ ]
  drop-suc zero (x ∷ xs) d h = refl
  drop-suc (suc p) (x ∷ xs) d h = drop-suc p xs d (omega arith)

  drop-nil : (n : ℕ) → ◌≡◌ {A = List A} (drop n []) []
  drop-nil zero = refl
  drop-nil (suc n) = refl

  pub drop-drop : (p q : ℕ) (xs : List A) → drop q (drop p xs) ≡ drop (p + q) xs
  drop-drop zero q xs = ap (λ (n : ℕ). drop n xs) (omega arith)
  drop-drop (suc p) q [] = rw (drop-nil q, drop-nil (suc p + q))
  drop-drop (suc p) q (x ∷ xs) =
      let e : suc p + q ≡ suc (p + q) = omega arith in rw e (drop-drop p q xs)

  pub drop-length : (xs : List A) → ◌≡◌ {A = List A} (drop (length xs) xs) []
  drop-length [] = refl
  drop-length (x ∷ xs) = drop-length xs

  -- A list of two or more entries ends in two entries.
  pub take-last_two :
      (xs : List A) (d : A)
      → 2 ≤ length xs
      → xs
        ≡ take (length xs - 2) xs ++ get_or xs (length xs - 2) d ∷ get_or xs (length xs - 1) d ∷ []
  take-last_two xs d h = rw (← end) (sym (take-append-drop (length xs - 2) xs))
    where
      last : suc (length xs - 2) ≡ length xs - 1
      last = omega arith

      past : suc (length xs - 1) ≡ length xs
      past = omega arith

      end : drop (length xs - 2) xs ≡ get_or xs (length xs - 2) d ∷ get_or xs (length xs - 1) d ∷ []
      end =
          drop-suc (length xs - 2) xs d (omega arith)
          ∙ ap (λ (t : List A). get_or xs (length xs - 2) d ∷ t)
              (ap (λ (n : ℕ). drop n xs) last
                ∙ drop-suc (length xs - 1) xs d (omega arith)
                ∙ ap (λ (t : List A). get_or xs (length xs - 1) d ∷ t)
                    (ap (λ (n : ℕ). drop n xs) past ∙ drop-length xs))

-- Reading through a known suffix.
module _ {ℓ} {A : Type ℓ} where
  pub get_or-drop :
      (p : ℕ) (xs : List A) {y : A} {ys : List A} (d : A) → drop p xs ≡ y ∷ ys → get_or xs p d ≡ y
  get_or-drop zero [] d h = cc
  get_or-drop (suc p) [] d h = cc
  get_or-drop zero (x ∷ xs) d h = cc
  get_or-drop (suc p) (x ∷ xs) d h = get_or-drop p xs d h

  pub drop_next :
      (p : ℕ) (xs : List A) {y : A} {ys : List A} → drop p xs ≡ y ∷ ys → drop (p + 1) xs ≡ ys
  drop_next p xs h = sym (drop-drop p 1 xs) ∙ ap (drop 1) h

module _ {ℓ κ} {A : Type ℓ} (P : A → Type κ) where
  pub All-append_left : (xs ys : List A) → All P (xs ++ ys) → All P xs
  All-append_left [] ys h = tt
  All-append_left (x ∷ xs) ys h = (h.0, All-append_left xs ys h.1)

  pub All-append_right : (xs ys : List A) → All P (xs ++ ys) → All P ys
  All-append_right [] ys h = h
  All-append_right (x ∷ xs) ys h = All-append_right xs ys h.1

  pub All-append : (xs ys : List A) → All P xs → All P ys → All P (xs ++ ys)
  All-append [] ys hx hy = hy
  All-append (x ∷ xs) ys hx hy = (hx.0, All-append xs ys hx.1 hy)

  pub take-All : (n : ℕ) (xs : List A) → All P xs → All P (take n xs)
  take-All zero xs h = tt
  take-All (suc n) [] h = tt
  take-All (suc n) (x ∷ xs) h = (h.0, take-All n xs h.1)

  pub keep-All : (test : A → Bool) (xs : List A) → All P xs → All P (keep test xs)
  keep-All test [] h = tt
  keep-All test (x ∷ xs) h = ground (arith, keep-All test xs h.1)

-- A second predicate on the same entries.
module _ {ℓ κ μ ν} {A : Type ℓ} (P : A → Type κ) (Q : A → Type μ) (R : A → Type ν) where
  pub All-zip : (xs : List A) → ((x : A) → P x → Q x → R x) → All P xs → All Q xs → All R xs
  All-zip [] f h k = tt
  All-zip (x ∷ xs) f h k = (f x h.0 k.0, All-zip xs f h.1 k.1)
