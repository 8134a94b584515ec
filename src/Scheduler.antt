-- ===== src/Scheduler.antt =====
-- src/scheduler, components/retrack-types/src/scheduler
pub mod RetryStrategy
pub mod Job
pub mod Cron
pub mod Retry
pub mod RunJob
pub mod ScheduleJob
pub mod UniqueJobs
pub mod Resume
