-- ===== src/Events.antt =====
-- dancex11/scheduler: `Counter` is the completion counter, `Completion` the futures counted by it,
-- `Action` the call of a deployment event, and `Scheduler` the queue and the waiting on it.
pub mod Counter
pub mod Completion
pub mod Action
pub mod Scheduler
pub mod Kinds
pub mod Tests
