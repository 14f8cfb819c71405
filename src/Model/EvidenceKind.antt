-- ===== src/Model/EvidenceKind.antt =====
-- `EvidenceKind` of internal/model/runtime.go: a Go string type.
-- `undeclared` holds every other string, "" included.
use cflow.Base.{Bool, true, false, String}

pub data EvidenceKind : Type 0 where
  commit test_result review_result protocol_event git_snapshot : EvidenceKind
  undeclared : String → EvidenceKind

unfoldable pub is_valid : EvidenceKind → Bool
is_valid (undeclared s) = false
is_valid _ = true

unfoldable pub spell : EvidenceKind → String
spell commit = "commit"
spell test_result = "test-result"
spell review_result = "review-result"
spell protocol_event = "protocol-event"
spell git_snapshot = "git-snapshot"
spell (undeclared s) = s
