-- ===== src/Tests.antt =====
-- The theorems at concrete inputs.
pub mod Samples
pub mod Dispatch
pub mod Queues
pub mod Names
pub mod Health
pub mod Rounds
pub mod Peers
pub mod Files
pub mod Targets
pub mod Recovery
pub mod Convergence
pub mod Shell
pub mod Loop
pub mod Todos
pub mod Envelopes
