-- ===== src/Model/Evidence.antt =====
-- `EvidenceRef` of internal/model/runtime.go: a pointer at one persisted fact.
use cflow.Base.{Bool, String, ◌==◌, ◌&&◌, any, List}
use cflow.Model.EvidenceKind
use cflow.Model.EvidenceKind.{EvidenceKind}

pub record EvidenceRef : Type 0 where
  pub kind : EvidenceKind
  pub hash : String
  pub subject : String

-- The zero value.
abbrev pub no_evidence : EvidenceRef
no_evidence = record { kind = EvidenceKind.undeclared ""; hash = ""; subject = "" }

-- `==` of two references.
unfoldable pub same : EvidenceRef → EvidenceRef → Bool
unfolding EvidenceKind.spell
same a b =
    EvidenceKind.spell a.kind == EvidenceKind.spell b.kind
    && (a.hash == b.hash && a.subject == b.subject)

-- `evidenceOn` of internal/decision/workflow.go.
unfoldable pub evidence_on : List EvidenceRef → EvidenceKind → String → Bool
unfolding EvidenceKind.spell any
evidence_on list kind subject =
    any
      (λ (e : EvidenceRef).
        EvidenceKind.spell e.kind == EvidenceKind.spell kind && e.subject == subject)
      list
