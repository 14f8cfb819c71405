-- ===== src/Kernel/Output.antt =====
-- The judgement of a Provider's output in internal/decision/planning.go: the Plan's Markdown, the Spec
-- set and the Checker's structured result. An error is its text.
pub mod Bounds
use cflow.Base.{
  ℕ, Bool, true, false, String, Option, none, some, List, [], ◌∷◌, ◌==◌, ◌&&◌, ◌||◌, not, ◌&◌, ltb,
  eqb, if◌then◌else◌, length, all, any, decimal,
}
use cflow.Base.Result.{Result, ok, ◌>>◌, ◌>>=◌, refuse, need}
use cflow.Model.State.{State}
use cflow.Kernel.Codec.{Codec}
use cflow.Kernel.Verdict.{max_plan_body}
use cflow.Base.{◌++◌, len}
use cflow.Kernel.Builder.{is_in}
use cflow.Kernel.Codec.{CheckResult}
use cflow.Kernel.Document.{Fields, Value, Values, lookup}
use cflow.Kernel.Verdict.{split_lines}

-- A test whose failure is the given text.
unfoldable pub expect : Bool → String → Result String Unit
expect t text = refuse (not t) text

-- The two bounds of every output: it is not empty, and not above `maxPlanBody`, nor `maxSpecOutput` of
-- the same value.
unfoldable pub is_bounded : List ℕ → Bool
is_bounded body = not (eqb (length body) 0) && not (ltb max_plan_body (length body))

-- `strings.HasPrefix` on bytes, with what follows.
unfoldable pub bytes_after : List ℕ → List ℕ → Option (List ℕ)
bytes_after [] s = some s
bytes_after (p ∷ ps) [] = none
bytes_after (p ∷ ps) (c ∷ cs) = let rest = bytes_after ps cs in if eqb p c then rest else none

-- "# " and "## ".
abbrev pub title_mark : List ℕ
title_mark = 35 ∷ 32 ∷ []

abbrev pub section_mark : List ℕ
section_mark = 35 ∷ 35 ∷ 32 ∷ []

-- The title on the first line that is not blank; a body of blank lines has the title "".
unfoldable pub plan_title : Codec → List (List ℕ) → Result String String
plan_title codec [] = ok ""
plan_title codec (line ∷ lines) =
    let rest = plan_title codec lines in
    if eqb (length (codec.trim_space line)) 0
    then rest
    else need (bytes_after title_mark line) "plan output must begin with a \"# <title>\" heading"
      >>= λ after.
          (let title = codec.text_of (codec.trim_space after) in
            refuse (title == "") "plan output title is empty" >> ok title)

-- The line is the heading of the section.
unfoldable pub is_section : Codec → String → List ℕ → Bool
is_section codec sec line = elim (bytes_after section_mark (codec.trim_space line)) [
  | none ↦ false
  | some after ↦ codec.text_of (codec.trim_space after) == sec
]

-- `planRequiredSections`.
abbrev pub plan_required_sections : List String
plan_required_sections =
    "背景" ∷ "目标" ∷ "范围" ∷ "非目标" ∷ "约束" ∷ "当前实现分析" ∷ "推荐技术方案" ∷ "关键设计决策" ∷ "涉及模块与文件边界" ∷ "数据与兼容性影响"
    ∷ "测试与验收方案" ∷ "风险与回滚" ∷ "未决问题" ∷ []

unfoldable pub check_sections : Codec → List (List ℕ) → List String → Result String Unit
check_sections codec lines [] = ok tt
check_sections codec lines (sec ∷ secs) =
    expect (any (is_section codec sec) lines)
      ("plan output is missing the required section " & codec.quote sec)
    >> check_sections codec lines secs

unfoldable pub validate_plan_markdown : Codec → List ℕ → Result String String
validate_plan_markdown codec body = do
  refuse (eqb (length body) 0) "plan output is empty"
  refuse (ltb max_plan_body (length body)) (
      "plan output exceeds the bounded size: "
      & decimal (length body)
      & " bytes > "
      & decimal max_plan_body)
  refuse (not (codec.utf8_valid body)) "plan output is not valid UTF-8"
  title ← plan_title codec (split_lines body)
  check_sections codec (split_lines body) plan_required_sections
  ok title

-- The front matter between its two rules, "---\n" and "---\n\n", then the Markdown.
unfoldable pub assemble_plan_body : Codec → State → ℕ → String → List ℕ → Result String (List ℕ)
assemble_plan_body codec st revision title markdown = do
  front ←
      need (codec.plan_front st.workflow.id revision title) "plan front matter cannot be serialized"
  ok ((45 ∷ 45 ∷ 45 ∷ 10 ∷ []) ++ front ++ (45 ∷ 45 ∷ 45 ∷ 10 ∷ 10 ∷ []) ++ markdown)

-- The keys that a Spec may have and those that it must have.
abbrev pub spec_allowed_keys : List String
spec_allowed_keys =
    "id" ∷ "goal" ∷ "depends_on" ∷ "write_scope" ∷ "read_scope" ∷ "locks" ∷ "acceptance" ∷ "route"
    ∷ "timeout_seconds" ∷ "max_retry" ∷ []

abbrev pub spec_required_keys : List String
spec_required_keys = "id" ∷ "goal" ∷ "depends_on" ∷ "write_scope" ∷ "acceptance" ∷ []

-- A Go map has no order: of several keys that are not allowed, the first in the model's is reported.
unfoldable pub check_keys : Codec → Fields → Result String Unit
check_keys codec Fields.empty = ok tt
check_keys codec (Fields.field key v rest) =
    expect (is_in key spec_allowed_keys)
      ("spec output carries the disallowed field " & codec.quote key)
    >> check_keys codec rest

unfoldable pub has_key : Fields → String → Bool
has_key m key = elim (lookup key m) [ none ↦ false | some _ ↦ true ]

unfoldable pub check_required : Codec → Fields → List String → Result String Unit
check_required codec m [] = ok tt
check_required codec m (key ∷ keys) =
    expect (has_key m key) ("spec output is missing the required field " & codec.quote key)
    >> check_required codec m keys

-- The type assertions `.(string)`, `.([]any)` and `.(map[string]any)` on a value that may be missing.
unfoldable pub as_text : Option Value → Option String
as_text (some (Value.text s)) = some s
as_text _ = none

unfoldable pub as_seq : Option Value → Option Values
as_seq (some (Value.seq vs)) = some vs
as_seq _ = none

unfoldable pub as_table : Option Value → Option Fields
as_table (some (Value.table m)) = some m
as_table _ = none

unfoldable pub is_text : Option Value → Bool
is_text v = elim (as_text v) [ none ↦ false | some s ↦ not (s == "") ]

unfoldable pub all_texts : Values → Bool
all_texts Values.end = true
all_texts (Values.item v vs) =
    elim (as_text (some v)) [ none ↦ false | some _ ↦ true ] && all_texts vs

unfoldable pub is_filled : Values → Bool
is_filled Values.end = false
is_filled (Values.item v vs) = true

unfoldable pub filled_seq : Option Value → String → Result String Values
filled_seq v text = do vs ← need (as_seq v) text; expect (is_filled vs) text; ok vs

unfoldable pub validate_spec_output : Codec → Option Fields → Result String (List ℕ)
validate_spec_output codec spec = do
  m ← need spec "spec output carries an empty spec"
  check_keys codec m
  check_required codec m spec_required_keys
  expect (is_text (lookup "id" m)) "spec id must be a non-empty string"
  expect (is_text (lookup "goal" m)) "spec goal must be a non-empty string"
  deps ← need (as_seq (lookup "depends_on" m)) "spec depends_on must be a list"
  expect (all_texts deps) "spec depends_on entries must be strings"
  scope ← filled_seq (lookup "write_scope" m) "spec write_scope must be a non-empty list"
  acceptance ← need (as_table (lookup "acceptance" m)) "spec acceptance must be an object"
  commands ←
      filled_seq (lookup "verification_command_ids" acceptance)
        "spec acceptance must reference verification commands"
  expect (all_texts commands) "spec acceptance command ids must be strings"
  need (codec.marshal_spec m) "spec output cannot be serialized"

unfoldable pub validate_specs : Codec → List (Option Fields) → Result String Unit
validate_specs codec [] = ok tt
validate_specs codec (m ∷ ms) = validate_spec_output codec m >>= λ body. validate_specs codec ms

-- The Spec set of an output, serialized again.
unfoldable pub judge_specs : Codec → List ℕ → Result String (List ℕ)
judge_specs codec body = do
  expect (is_bounded body) "spec generation output is empty or exceeds the bounded size"
  specs ← need (codec.yaml_specs body) "spec generation output is not a structured document"
  refuse (eqb (length specs) 0) "spec generation output must carry at least one spec"
  validate_specs codec specs
  need (codec.marshal_specs specs) "spec output cannot be serialized"

-- The restricted patch of a Workflow Optimization.
unfoldable pub judge_patch : Codec → List ℕ → Result String Unit
judge_patch codec body = do
  expect (is_bounded body) "workflow optimization output is empty or exceeds the bounded size"
  (schema, operations) ←
      need (codec.yaml_patch body) "workflow optimization output is not a structured patch"
  refuse (not (schema == "cflow-workflow-patch-1") || eqb operations 0)
      "workflow optimization output is not a restricted patch document"

-- `checkDecision`: the closed set of a Checker's decisions.
pub data CheckDecision : Type 0 where
  pass needs_discussion needs_revision reject : CheckDecision

unfoldable pub read_decision : String → Option CheckDecision
read_decision s =
    if s == "pass"
    then some CheckDecision.pass
    else if s == "needs_discussion"
    then some CheckDecision.needs_discussion
    else if s == "needs_revision"
    then some CheckDecision.needs_revision
    else if s == "reject"
    then some CheckDecision.reject
    else none

-- `maxGapText` and `maxCheckGaps`.
abbrev pub max_gap_text : ℕ
max_gap_text = 4096

abbrev pub max_check_gaps : ℕ
max_check_gaps = 32

unfoldable pub is_short : String → Bool
is_short s = not (ltb max_gap_text (len s))

-- The result with its decision read.
unfoldable pub parse_check_result : Codec → List ℕ → Result String (CheckResult × CheckDecision)
parse_check_result codec body = do
  expect (is_bounded body) "check output is empty or exceeds the bounded size"
  out ← need (codec.json_check body) "check output is not a structured JSON result"
  decision ←
      need (read_decision out.decision)
        ("check output carries an unknown decision " & codec.quote out.decision)
  refuse
      (not (is_short out.summary)
        || (ltb max_check_gaps (length out.blocking_gaps)
            || ltb max_check_gaps (length out.non_blocking_suggestions)))
      "check output exceeds the bounded fields"
  expect (all is_short out.blocking_gaps) "check output gap exceeds the bounded size"
  expect (all is_short out.non_blocking_suggestions)
      "check output suggestion exceeds the bounded size"
  expect out.confidence_in_range "check output confidence is outside [0, 1]"
  ok (out, decision)
