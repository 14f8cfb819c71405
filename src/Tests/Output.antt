-- ===== src/Tests/Output.antt =====
-- The theorems on what Agents write and on the reconciliation of a replacement, applied.
use cflow.Base.{ℕ, true, String, List, [], ◌∷◌, ◌≡◌, refl, all}
use cflow.Kernel.Manifest.{classify_manifest}
use cflow.Kernel.Manifest.Safe.{classify_manifest-safe, is_safe}
use cflow.Kernel.Output.Bounds.{is_within, read-within}
use cflow.Tests.Chain.{merging, plain_codec}

-- The bytes of "PASS".
abbrev pass_body : List ℕ
pass_body = 80 ∷ 65 ∷ 83 ∷ 83 ∷ []

read-within_example : is_within pass_body ≡ true
unfolding cflow.Kernel.Output.Bounds.is_read cflow.Kernel.Output.Bounds.is_some
    cflow.Kernel.Verdict.parse_review_verdict cflow.Kernel.Verdict.verdict_line
    cflow.Kernel.Verdict.split_lines cflow.Kernel.Verdict.same_bytes
read-within_example = read-within plain_codec pass_body refl

classify_manifest-safe_example :
    all
      (is_safe merging (λ (id : String). true))
      (classify_manifest merging (λ (id : String). true) (λ (id : String). true))
    ≡ true
classify_manifest-safe_example =
    classify_manifest-safe merging (λ (id : String). true) (λ (id : String). true)
