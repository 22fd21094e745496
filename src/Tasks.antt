-- ===== src/Tasks.antt =====
-- ufoundry/tasks: schedules and the commands that create tasks.
pub mod Schedule
pub mod Parser
pub mod Poller
mod Tests
