-- ===== src/Core/Convergence/Command.antt =====
-- The commands of src/thorn/core/_validation_convergence.py: from the text of a tool call's arguments to
-- the identity of a validation.
pub mod Arguments
pub mod Parse
pub mod Scopes
pub mod Recognition
