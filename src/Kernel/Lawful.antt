-- ===== src/Kernel/Lawful.antt =====
-- Which mutations are lawful in the state that a Decision is made from (design 7.3), and the proofs
-- that the decisions of the Kernel ask for no other.
pub mod Rules
pub mod Settle
pub mod Workflow
pub mod Attempt
pub mod Sweep
pub mod Dispatch
pub mod Applied
pub mod Committed
pub mod Free
pub mod Apply
pub mod Cleanup
pub mod Drift
pub mod Found
pub mod Chain
pub mod Verify
pub mod Merge
pub mod Adopt
pub mod Planning
pub mod Gates
pub mod Produced
pub mod Provider
pub mod Decide
