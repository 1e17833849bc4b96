-- ===== src/Task.antt =====
-- eira/src/task: tasks and the scheduler.
pub mod Types
pub mod Scheduler
pub mod Switch
mod Tests
