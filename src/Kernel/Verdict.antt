-- ===== src/Kernel/Verdict.antt =====
-- `parseReviewVerdict` of internal/decision/verify.go.
use cflow.Base.{
  ℕ, Bool, true, false, Option, none, some, List, [], ◌∷◌, ◌==◌, ◌&&◌, ◌||◌, eqb, ltb, length,
  if◌then◌else◌,
}
use cflow.Kernel.Codec.{Codec}

-- `maxPlanBody`: 1 << 20.
abbrev pub max_plan_body : ℕ
max_plan_body = 1048576

-- `strings.Split(s, "\n")`.
unfoldable pub split_lines : List ℕ → List (List ℕ)
split_lines [] = [] ∷ []
split_lines (c ∷ cs) = elim (split_lines cs) [
  | [] ↦ (c ∷ []) ∷ []
  | line ∷ lines ↦ if eqb c 10 then [] ∷ line ∷ lines else (c ∷ line) ∷ lines
]

unfoldable pub same_bytes : List ℕ → List ℕ → Bool
same_bytes [] [] = true
same_bytes (x ∷ xs) (y ∷ ys) = eqb x y && same_bytes xs ys
same_bytes _ _ = false

-- "PASS" and "FAIL" as bytes.
abbrev pub pass_bytes : List ℕ
pass_bytes = 80 ∷ 65 ∷ 83 ∷ 83 ∷ []

abbrev pub fail_bytes : List ℕ
fail_bytes = 70 ∷ 65 ∷ 73 ∷ 76 ∷ []

-- The loop over the lines: the first line that is a verdict decides.
unfoldable pub verdict_line : Codec → List (List ℕ) → Option Bool
verdict_line codec [] = none
verdict_line codec (line ∷ lines) =
    let text = codec.trim_space line in
    let rest = verdict_line codec lines in
    if same_bytes text pass_bytes
    then some true
    else if same_bytes text fail_bytes
    then some false
    else rest

-- The structured field decides where it is a verdict, the lines where it is not; `none` is an error.
unfoldable pub parse_review_verdict : Codec → List ℕ → Option Bool
parse_review_verdict codec body =
    if eqb (length body) 0 || ltb max_plan_body (length body)
    then none
    else (let lines = verdict_line codec (split_lines body) in
        elim (codec.json_decision body) [
          | none ↦ lines
          | some decision ↦
              if decision == "PASS"
              then some true
              else if decision == "FAIL"
              then some false
              else lines
        ])
