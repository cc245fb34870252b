-- ===== src/Io.antt =====
-- Calls that change the outside world and may raise.
use mvd_edge_agent.Outcome.{Outcome, ok, raised, Error}

abbrev pub Io : Type 0 → Type 0 → Type 0
Io W A = W → Outcome A × W

module _ {W A : Type 0} where
  abbrev pub pure : A → Io W A
  pure a w = (ok a, w)

  abbrev pub raise : Error → Io W A
  raise e w = (raised e, w)

infixl 5 ◌>>=◌ ◌>>◌
abbrev pub ◌>>=◌ : {W A B : Type 0} → Io W A → (A → Io W B) → Io W B
◌>>=◌ m f w = let (outcome, w') = m w in elim outcome [ ok a ↦ f a w' | raised e ↦ (raised e, w') ]

abbrev pub ◌>>◌ : {W A B : Type 0} → Io W A → Io W B → Io W B
m >> k = m >>= λ _. k
