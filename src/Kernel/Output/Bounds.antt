-- ===== src/Kernel/Output/Bounds.antt =====
-- The bound on the bodies that the Kernel reads from Agents (maxPlanBody).
use cflow.Base.{
  ℕ, Bool, String, true, false, Option, none, some, List, ◌≡◌, refl, ◌&&◌, ◌||◌, leb, ltb, length,
  arith,
}
use cflow.Base.Result.{Result, ok, err, ◌>>◌}
use cflow.Kernel.Codec.{Codec}
use cflow.Kernel.Verdict.{max_plan_body, parse_review_verdict}
use cflow.Kernel.Output.{
  expect, is_bounded, judge_patch, judge_specs, parse_check_result, validate_plan_markdown,
}
use cflow.Kernel.Admit.{refuse-ok, refuse_tt, then-ok}

unfoldable pub is_some {ℓ} : {A : Type ℓ} → Option A → Bool
is_some none = false
is_some (some a) = true

unfoldable pub is_ok {ℓ} : {E A : Type ℓ} → Result E A → Bool
is_ok (ok a) = true
is_ok (err e) = false

-- A body that one of the readers accepts: a review verdict, a Plan, a check result, a list of Specs or a
-- patch.
unfoldable pub is_read : Codec → List ℕ → Bool
is_read codec body =
    is_some (parse_review_verdict codec body)
    || (is_ok (validate_plan_markdown codec body)
        || (is_ok (parse_check_result codec body)
            || (is_ok (judge_specs codec body) || is_ok (judge_patch codec body))))

unfoldable pub is_within : List ℕ → Bool
is_within body = ltb 0 (length body) && leb (length body) max_plan_body

verdict-within :
    (codec : Codec) (body : List ℕ)
    → is_some (parse_review_verdict codec body) ≡ true
    → is_within body ≡ true
unfolding parse_review_verdict is_some is_within
verdict-within codec body h = ground (arith, h)

plan-within :
    (codec : Codec) (body : List ℕ) (r : Result _ _)
    → validate_plan_markdown codec body ≡ r
    → is_ok r ≡ true
    → is_within body ≡ true
unfolding validate_plan_markdown is_ok is_within
plan-within codec body (err t) e h = ground (arith, h)
plan-within codec body (ok title) e h =
    let (g1, e1) = refuse-ok _ _ _ title e in
    let (g2, e2) = refuse-ok _ _ _ title e1 in ground (arith, g1, g2)

-- A reader that first tests the bounds.
tested-within :
    {A : Type 0} (body : List ℕ) (text : String) (k : Result String A) (r : Result String A)
    → (expect (is_bounded body) text >> k) ≡ r
    → is_ok r ≡ true
    → is_within body ≡ true
unfolding is_ok is_within expect is_bounded
tested-within body text k (err t) e h = ground (arith, h)
tested-within body text k (ok out) e h =
    let (g1, e1) = then-ok _ _ out e in ground (arith, refuse_tt _ _ g1)

check-within :
    (codec : Codec) (body : List ℕ)
    → is_ok (parse_check_result codec body) ≡ true
    → is_within body ≡ true
unfolding parse_check_result
check-within codec body h = tested-within body _ _ _ refl h

specs-within :
    (codec : Codec) (body : List ℕ) → is_ok (judge_specs codec body) ≡ true → is_within body ≡ true
unfolding judge_specs
specs-within codec body h = tested-within body _ _ _ refl h

patch-within :
    (codec : Codec) (body : List ℕ) → is_ok (judge_patch codec body) ≡ true → is_within body ≡ true
unfolding judge_patch
patch-within codec body h = tested-within body _ _ _ refl h

-- A body that the Kernel accepts as a review verdict, a Plan, a check result, a list of Specs or a
-- patch is not empty and has at most 2 ^ 20 bytes.
pub read-within :
    (codec : Codec) (body : List ℕ) → is_read codec body ≡ true → is_within body ≡ true
unfolding is_read
read-within codec body h = ground (
  arith,
  h,
  verdict-within codec body,
  plan-within codec body _ refl,
  check-within codec body,
  specs-within codec body,
  patch-within codec body,
)
