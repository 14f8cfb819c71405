-- ===== src/Base/Result.antt =====
-- A Go pair (value, error) as one value, and the two ways in which code leaves early.
use mathlib.Core.Bool.{Bool, true, false}
use mathlib.Core.Option.{Option, none, some}

pub data Result {ℓ} (E : Type ℓ) (A : Type ℓ) : Type ℓ where
  ok : A → Result E A
  err : E → Result E A

infixl 5 ◌>>=◌ ◌>>◌
unfoldable pub ◌>>=◌ {ℓ} : {E A B : Type ℓ} → Result E A → (A → Result E B) → Result E B
ok a >>= f = f a
err e >>= f = err e

unfoldable pub ◌>>◌ {ℓ} : {E B : Type ℓ} → Result E Unit → Result E B → Result E B
m >> k = m >>= λ _. k

-- if test { return error }
unfoldable pub refuse {ℓ} : {E : Type ℓ} → Bool → E → Result E Unit
refuse true e = err e
refuse false e = ok tt

-- if p == nil { return error }; the rest reads *p
unfoldable pub need {ℓ} : {E A : Type ℓ} → Option A → E → Result E A
need none e = err e
need (some a) e = ok a
