-- ===== src/Core/Convergence.antt =====
-- src/thorn/core/_validation_convergence.py: which repeated validations count as progress.
pub mod Identity
pub mod Tracker
pub mod History
pub mod Progress
pub mod Content
pub mod Command
