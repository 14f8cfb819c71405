-- ===== src/Model/ProcessStatus.antt =====
-- `ProcessStatus` of internal/model/runtime.go: a Go string type.
-- `undeclared` holds every other string, "" included.
use cflow.Base.{Bool, true, false, String}

pub data ProcessStatus : Type 0 where
  running exited stopped : ProcessStatus
  undeclared : String → ProcessStatus

unfoldable pub is_valid : ProcessStatus → Bool
is_valid (undeclared s) = false
is_valid _ = true

unfoldable pub spell : ProcessStatus → String
spell running = "RUNNING"
spell exited = "EXITED"
spell stopped = "STOPPED"
spell (undeclared s) = s

unfoldable pub is_running : ProcessStatus → Bool
is_running running = true
is_running _ = false
