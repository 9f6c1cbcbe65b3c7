-- ===== src/Runtime.antt =====
-- The durable runtime of an agency: src/thorn/runtime.
pub mod Address
pub mod Ulid
pub mod Notification
pub mod Todo
pub mod World
pub mod Rebuild
pub mod Queue
pub mod Inbox
pub mod Dispatch
pub mod NotificationQueue
pub mod Sweep
pub mod ProviderHealth
pub mod Scheduler
