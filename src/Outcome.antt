-- ===== src/Outcome.antt =====
-- Python calls that may raise: the value, or the exception with its text.
use mvd_edge_agent.Prelude.{◌≡◌, refl, Option, none, some, Text}

-- `request_error` is `requests.RequestException`; `process_error` is `OSError` or
-- `subprocess.SubprocessError`; `other_error` is any further class.
pub data Error : Type 0 where
  value_error runtime_error request_error process_error other_error : Text → Error

-- str(exc)
unfoldable pub message : Error → Text
message (value_error t) = t
message (runtime_error t) = t
message (request_error t) = t
message (process_error t) = t
message (other_error t) = t

pub data Outcome {ℓ} (A : Type ℓ) : Type ℓ where
  ok : A → Outcome A
  raised : Error → Outcome A

infixl 5 ◌>>=◌
abbrev pub ◌>>=◌ {ℓ κ} : {A : Type ℓ} {B : Type κ} → Outcome A → (A → Outcome B) → Outcome B
ok a >>= f = f a
raised e >>= f = raised e

-- The exception of a call, if it raised.
abbrev pub exception_of {ℓ} : {A : Type ℓ} → Outcome A → Option Error
exception_of (ok a) = none
exception_of (raised e) = some e

-- What holds of the value of a call, where it returns one.
abbrev pub HoldsOf : {A : Type 0} → (A → Type 0) → Outcome A → Type 0
HoldsOf P (ok a) = P a
HoldsOf P (raised e) = Unit

pub HoldsOf-of_ok :
    {A : Type 0} (P : A → Type 0) (m : Outcome A) → ((a : A) → m ≡ ok a → P a) → HoldsOf P m
HoldsOf-of_ok P (ok a) each = each a refl
HoldsOf-of_ok P (raised e) each = tt
