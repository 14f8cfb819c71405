-- ===== src/Kernel/Codec.antt =====
-- The libraries that the Kernel calls on bodies and texts (encoding/json, yaml.v3, strings, unicode/utf8
-- and crypto/sha256), as one record of functions that the decisions take as a parameter. A body of
-- bytes is a list of numbers; `none` is a library's error.
use cflow.Base.{ℕ, Bool, String, Option, List}
use cflow.Kernel.Document.{Fields}

-- `structuredCheckResult`: of the confidence, a float64, the Kernel reads only whether it lies in [0, 1].
pub record CheckResult : Type 0 where
  pub decision : String
  pub summary : String
  pub blocking_gaps : List String
  pub non_blocking_suggestions : List String
  pub confidence_in_range : Bool

pub record Codec : Type 0 where
  -- json.Unmarshal into a struct with the one field `decision`
  pub json_decision : List ℕ → Option String
  -- strings.TrimSpace
  pub trim_space : List ℕ → List ℕ
  -- hex.EncodeToString of sha256.Sum256
  pub sha256_hex : List ℕ → String
  -- json.Unmarshal into a ChangeSet: how many commits it lists
  pub change_set_commits : List ℕ → Option ℕ
  -- hex.EncodeToString of the SHA-256 of a text
  pub sha256_text : String → String
  -- json.Marshal of a map[string]string
  pub marshal_context : List (String × String) → String
  -- json.Unmarshal into a map[string]string, and its value at "attempt" ("" where it has none)
  pub context_attempt : String → Option String
  -- json.Marshal of a replacement's decision context: the superseded approval, the quarantine set, and
  -- the revision and hash of the Reconciliation Manifest
  pub replacement_context : String → List String → ℕ → String → Option String
  -- json.Valid and utf8.Valid
  pub json_valid : List ℕ → Bool
  pub utf8_valid : List ℕ → Bool
  -- string(bytes) of a valid body
  pub text_of : List ℕ → String
  -- %q of fmt
  pub quote : String → String
  -- json.Unmarshal into the structured check result
  pub json_check : List ℕ → Option CheckResult
  -- json.Marshal of a check's body: the Plan's revision and hash, the Provider and Session of the
  -- Checker, the time, and the result
  pub marshal_check : ℕ → String → String → String → ℕ → CheckResult → Option (List ℕ)
  -- yaml.Marshal of a Plan's front matter: the Workflow, the revision and the title
  pub plan_front : String → ℕ → String → Option (List ℕ)
  -- yaml.Unmarshal into `specOutput`: its Specs, where `none` is a nil map
  pub yaml_specs : List ℕ → Option (List (Option Fields))
  -- yaml.Marshal of one Spec and of the set
  pub marshal_spec : Fields → Option (List ℕ)
  pub marshal_specs : List (Option Fields) → Option (List ℕ)
  -- yaml.Unmarshal of a patch: its schema and how many operations it has
  pub yaml_patch : List ℕ → Option (String × ℕ)
  -- json.Unmarshal of a decision context: its reason
  pub context_reason : String → Option String
