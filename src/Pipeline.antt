-- ===== src/Pipeline.antt =====
-- firmware/src/main.c: the five tasks that pass command objects on, the variables that they share
-- and the steps in which they interleave. A step of a task runs up to its next wait, its next
-- hand-over to another task or its next access to the portal.
pub mod Store
pub mod Work
pub mod Intake
pub mod Dispatch
pub mod Outcome
pub mod Steps
pub mod Places
pub mod Ownership
pub mod Worked
pub mod Ended
pub mod Invariant
pub mod Handing
pub mod Admitting
pub mod Receiving
pub mod Validating
pub mod Removal
pub mod Publishing
pub mod Sending
pub mod Dispatching
pub mod Watching
pub mod Recovering
pub mod Completing
pub mod Safety
pub mod Turning
pub mod Bounded
