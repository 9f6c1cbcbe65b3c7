-- ===== src/Core.antt =====
-- What every agent session stands on: src/thorn/core.
pub mod Convergence
pub mod FileAccess
pub mod Loop
pub mod ShellInspection
pub mod ValidationTracker
