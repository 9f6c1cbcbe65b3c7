-- ===== src/Core/ShellInspection.antt =====
-- src/thorn/core/_shell_inspection.py: which shell commands count as reading or searching files.
pub mod Words
pub mod Ranges
pub mod Command
pub mod ReadOnly
