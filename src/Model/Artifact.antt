-- ===== src/Model/Artifact.antt =====
-- internal/model/artifacts.go: references of immutable Artifact Revisions, and what approvals bind.
use cflow.Base.{ℕ, Bool, true, false, String, List, [], ◌∷◌, ◌==◌, ◌&&◌, eqb, decimal, ◌&◌}
use cflow.Model.ArtifactType
use cflow.Model.ArtifactType.{ArtifactType}
use cflow.Model.ApprovalKind.{ApprovalKind}

pub record ArtifactRef : Type 0 where
  pub workflow : String
  pub type : ArtifactType
  pub revision : ℕ
  pub hash : String

-- The zero value.
abbrev pub no_artifact : ArtifactRef
no_artifact = record { workflow = ""; type = ArtifactType.undeclared ""; revision = 0; hash = "" }

-- `==` of two references.
unfoldable pub same_ref : ArtifactRef → ArtifactRef → Bool
unfolding ArtifactType.spell
same_ref a b =
    a.workflow == b.workflow
    && (ArtifactType.spell a.type == ArtifactType.spell b.type
        && (eqb a.revision b.revision && a.hash == b.hash))

-- `ArtifactRef.String`.
unfoldable pub ref_text : ArtifactRef → String
unfolding ArtifactType.spell decimal
ref_text r = r.workflow & "/" & ArtifactType.spell r.type & "/" & decimal r.revision & "/" & r.hash

pub record Approval : Type 0 where
  pub id : String
  pub kind : ApprovalKind
  pub seq : ℕ
  pub refs : List ArtifactRef
  pub fingerprint : String
  pub preflight_revision : ℕ
  pub decision_context : String

pub record ExecutionFacts : Type 0 where
  pub plan_hash : String
  pub spec_hashes : List String
  pub catalog_hash : String
  pub workflow_hash : String
  pub routing_hash : String
  pub budget_hash : String
  pub commit_policy_hash : String
  pub fingerprint : String
  pub change_set_hash : String
  pub spec_revision : ℕ
  pub catalog_revision : ℕ
  pub workflow_revision : ℕ
  pub change_set_revision : ℕ
  pub preflight_revision : ℕ

-- The comparison of lengths and the loop over the indices in `Matches`.
unfoldable pub same_texts : List String → List String → Bool
same_texts [] [] = true
same_texts (x ∷ xs) (y ∷ ys) = x == y && same_texts xs ys
same_texts _ _ = false

-- `ExecutionFacts.Matches` at a pointer that is not nil.
unfoldable pub matches :
    ExecutionFacts
    → String
    → List String
    → String
    → String
    → String
    → String
    → String
    → String
    → Bool
unfolding same_texts
matches f plan specs catalog workflow routing budget policy change_set =
    f.plan_hash == plan
    && (f.catalog_hash == catalog
        && (f.workflow_hash == workflow
            && (f.routing_hash == routing
                && (f.budget_hash == budget
                    && (f.commit_policy_hash == policy
                        && (f.change_set_hash == change_set && same_texts f.spec_hashes specs))))))
