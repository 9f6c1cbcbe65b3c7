-- ===== src/Core/Loop.antt =====
-- The rounds of src/thorn/core/_loop.py: what a round of tool calls did, and the guards that end a loop.
pub mod Round
pub mod Progress
pub mod Guard
pub mod Stretch
pub mod Repetition
pub mod Repeats
