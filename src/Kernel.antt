-- ===== src/Kernel.antt =====
-- Package internal/decision: the Decision Kernel.
pub mod Facts
pub mod Builder
pub mod Settle
pub mod Control
pub mod Lawful
pub mod Input
pub mod Attempt
pub mod Sweep
pub mod Dispatch
pub mod Admit
pub mod Lookup
pub mod SessionPick
pub mod Latest
pub mod Opening
pub mod Quiet
pub mod Install
pub mod Codec
pub mod Verdict
pub mod Chain
pub mod Verify
pub mod Merge
pub mod Adopt
pub mod Apply
pub mod Deliver
pub mod Cleanup
pub mod Drift
pub mod Replace
pub mod Planning
pub mod Discuss
pub mod Gates
pub mod Complete
pub mod Document
pub mod Output
pub mod Produced
pub mod Provider
pub mod Manifest
pub mod Decide
