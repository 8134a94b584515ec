-- ===== src/Tasks.antt =====
-- src/tasks
pub mod Task
pub mod Template
pub mod Api
pub mod Run
