-- ===== src/Lib.antt =====
-- CFlow's Decision Kernel, its data model, the in-memory part of its Store and its Scheduler.
--
-- CFlow drives coding agents through a Workflow that is kept in a database. A pure function, the
-- Decision Kernel of internal/decision, is given the aggregate (the State) and an input and returns a
-- Decision: mutations, events and at most one effect. The Store of internal/store applies the
-- mutations in one transaction, and the Scheduler of internal/schedule picks the Nodes that the
-- Application offers to the Kernel for allocation. The Kernel and the Store meet in the type of
-- mutations, the Kernel and the Scheduler in the status of the Nodes and the dispatch gate of a Run.
--
-- Files:
-- - Base and Base/: lists, tests, text, integers, sorting and results, shared by all parts.
-- - Model and Model/: internal/model. One file per Go string type, with its Valid, Parse, String,
--   IsTerminal and CanTransitionTo; Fault (fault.go), Artifact (artifacts.go), Evidence and Runtime
--   (runtime.go, apply.go), State and Valid (state.go), Decision (decision.go), Effect (effects.go).
--   Machines, Texts and Policies hold the theorems on them.
-- - Kernel/Facts and Kernel/Builder: internal/decision/kernel.go. `b ▸ f` is the call f(b) of a
--   method or function that appends to the Decision under construction.
-- - Kernel/Control: decideWorkflow with the five commands (workflow.go, apply_cleanup.go).
-- - Kernel/Settle, Kernel/Attempt, Kernel/Sweep: execution.go. Settle holds finishCancel,
--   convergeStopping, convergeQuiescing, settleAfterAttemptEnd, closeDispatchForFailure and
--   settleOrphanProcess; Attempt holds decideAttemptEnded; Sweep holds decideProcessStopped,
--   decideReconcile and decideAgentEvent.
-- - Kernel/Lookup, Kernel/SessionPick, Kernel/Dispatch: the allocations of dispatch.go.
--   Kernel/Install: its graph install. The reason that encoding/json reads from an approval's decision
--   context is a parameter there.
-- - Kernel/Planning, Kernel/Discuss, Kernel/Gates, Kernel/Complete: the discussion, planning and approval
--   commands of workflow.go and decideComplete.
-- - Kernel/Codec, Kernel/Document, Kernel/Output, Kernel/Produced, Kernel/Provider: planning.go. Output
--   judges the bodies that Agents write, Produced commits them, Provider routes the end of a run.
-- - Kernel/Chain, Kernel/Verdict, Kernel/Verify, Kernel/Merge, Kernel/Adopt: verify.go.
-- - Kernel/Drift, Kernel/Replace, Kernel/Manifest: safety.go.
-- - Kernel/Apply, Kernel/Deliver, Kernel/Cleanup: apply_cleanup.go.
-- - Kernel/Decide: the Task Worktree result, the router of effect results (execution.go), the union of
--   inputs and Decide (kernel.go).
-- - Kernel/Lawful and Kernel/Lawful/: which mutations are lawful in the state that a Decision is made
--   from, and what lawful ones leave behind in the loop of the Store (Lawful/Applied) and in its
--   transaction (Lawful/Committed); Lawful/Decide joins the parts. Kernel/Admit, Admit/Delivery and
--   Kernel/Opening: what accepted commands show; Kernel/Quiet: what the Recovery sweep may ask for;
--   Kernel/Latest: the lookups of Attempts; Manifest/Safe and Output/Bounds: what the names say of the
--   reconciliation and of the bodies.
-- - Store/Edit, Store/Apply: applyMutation (mutations.go) and the loop of transact (store.go) over it.
--   Store/Transact: the refusals of transact around that loop. The Decision of a creation carries no
--   identity, so that the loop accepts a row that transact refuses.
-- - App: completeCreateIdentity of internal/app/application.go, which fills that identity in, and the
--   function that the Application gives to transact. App/Creation: what the commit of an input leaves.
-- - Schedule and Schedule/: Scheduler.Next (scheduler.go) and its guarantees.
-- - Tests and Tests/: concrete states and inputs.
--
-- How the code is read. An identity, a path or a hash is a text. A Go string type is a data type of its
-- declared values and `undeclared` with any other text. A time stamp and a counter that is only counted
-- up are natural numbers; the event sequence number wraps at 2 ^ 64; the exit code is an integer. A Go
-- map is an association list, whose order nothing that is modelled depends on but for the Attempt that
-- runningAttemptOf and attemptBySession find first and the final verify Node that decideComplete keeps. A pointer that may be nil is an Option. A Go function that returns an
-- error is a Result; an error text that is formatted from values is left empty, and the code, category,
-- scope and retry disposition of a fault are kept. A guard that returns early is `refuse`, a lookup
-- that returns early on nil is `need`. Every loop is over a list, so that no fuel is needed.
--
-- Libraries. JSON, YAML, UTF-8, white space and SHA-256 are the fields of Kernel/Codec, a record of
-- functions that every decision which reads a body takes as a parameter; no law of theirs is assumed.
-- Where the code would panic (an empty list of Spec hashes, a RUNNING Attempt without its Node, a check
-- without a Plan), the model answers with a fault.
--
-- Not modelled: the SQL of the Store and its driver; the Compiler; Recovery and the rest of the Application
-- layer around the Kernel; and everything that performs effects (git, processes, providers, files, terminals).
-- Where a decision refers to code outside the Kernel it does so by an effect, which is data.
pub mod Base
pub mod Model
pub mod Store
pub mod App
pub mod Kernel
pub mod Schedule
pub mod Tests
