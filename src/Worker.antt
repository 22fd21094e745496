-- ===== src/Worker.antt =====
-- ufoundry/worker.py: the worker, which serves the jobs of the queue.
pub mod Arguments
pub mod Approval
pub mod Gate
pub mod AgentGuard
pub mod Turn
pub mod Jobs
pub mod Inbox
pub mod Commands
pub mod Confirmation
pub mod AgentReply
pub mod TaskRun
mod Tests
