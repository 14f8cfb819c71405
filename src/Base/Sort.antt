-- ===== src/Base/Sort.antt =====
-- `sort.Slice` of Go with a strict order: on keys that are all different the order decides the
-- result, so an insertion sort stands for it.
use Prim.Native.String.{String, compare}
use Prim.Native.Nat.{Ordering}
use mathlib.Core.Bool.{Bool, true, false}
use mathlib.Core.List.{List, [], ◌∷◌}
use cflow.Base.Tests.{if◌then◌else◌}

-- `<` of Go on strings.
abbrev pub text_lt : String → String → Bool
text_lt a b = elim (compare a b) [ Ordering.lt ↦ true | _ ↦ false ]

module _ {ℓ} {A : Type ℓ} where
  unfoldable pub insert : (A → A → Bool) → A → List A → List A
  insert lt x [] = x ∷ []
  insert lt x (y ∷ ys) = let rest = insert lt x ys in if lt y x then y ∷ rest else x ∷ y ∷ ys

  unfoldable pub sort : (A → A → Bool) → List A → List A
  unfolding insert
  sort lt [] = []
  sort lt (x ∷ xs) = insert lt x (sort lt xs)
