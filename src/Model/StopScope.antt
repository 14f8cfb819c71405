-- ===== src/Model/StopScope.antt =====
-- `StopScope` of internal/model/fault.go: a Go string type.
-- `undeclared` holds every other string, "" included.
use cflow.Base.{Bool, true, false, String}

pub data StopScope : Type 0 where
  none affected all : StopScope
  undeclared : String → StopScope

unfoldable pub is_valid : StopScope → Bool
is_valid (undeclared s) = false
is_valid _ = true

unfoldable pub spell : StopScope → String
spell none = "NONE"
spell affected = "AFFECTED"
spell all = "ALL"
spell (undeclared s) = s
