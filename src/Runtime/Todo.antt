-- ===== src/Runtime/Todo.antt =====
-- src/thorn/runtime/_todo.py: the TODO list of a session.
pub mod Item
pub mod Store
pub mod Stored
pub mod Links
