-- ===== src/Base/Text.antt =====
-- Texts: `fmt.Sprintf` with %d (a natural number in decimal), and the reading of a string type.
use Prim.Native.Nat.{ℕ, zero, suc, ◌/◌, ◌%◌}
use Prim.Native.String.{String, ◌++◌, len, slice}
use mathlib.Core.Path.{◌≡◌, refl}
use mathlib.Core.Bool.{true, false}
use mathlib.Core.List.{List, [], ◌∷◌}
use mathlib.Core.Option.{Option, none, some}
use text.Mathlib.Text.{◌==◌, starts_with}
use cflow.Base.Tests.{ltb, eqb, if◌then◌else◌}

digit : ℕ → String
digit n =
    if eqb n 0
    then "0"
    else if eqb n 1
    then "1"
    else if eqb n 2
    then "2"
    else if eqb n 3
    then "3"
    else if eqb n 4
    then "4"
    else if eqb n 5
    then "5"
    else if eqb n 6
    then "6"
    else if eqb n 7
    then "7"
    else if eqb n 8
    then "8"
    else "9"

-- One digit a round; `n + 1` rounds are more than `n` has digits.
decimal_loop : ℕ → ℕ → String
decimal_loop zero n = ""
decimal_loop (suc fuel) n = elim (ltb n 10) [
  | true ↦ digit n
  | false ↦ decimal_loop fuel (n / 10) ++ digit (n % 10)
]

unfoldable pub decimal : ℕ → String
unfolding decimal_loop digit
decimal n = decimal_loop (suc n) n

decimal_test : decimal 1207 ≡ "1207"
unfolding decimal
decimal_test = refl

-- The value of a string type that is spelled `s`, among the declared ones; any other string is
-- kept as it stands.
unfoldable pub read_as {ℓ} : {A : Type ℓ} → (A → String) → (String → A) → List A → String → A
read_as spell other [] s = other s
read_as spell other (v ∷ vs) s = if spell v == s then v else read_as spell other vs s

-- strings.HasPrefix and strings.TrimPrefix: what follows the prefix, `none` where there is none.
unfoldable pub after_prefix : String → String → Option String
after_prefix prefix s = if starts_with s prefix then some (slice s (len prefix) (len s)) else none

after_prefix_test : after_prefix "verify-" "verify-login" ≡ some "login"
unfolding after_prefix
after_prefix_test = refl

after_prefix-none_test : after_prefix "verify-" "merge-login" ≡ none
unfolding after_prefix
after_prefix-none_test = refl
