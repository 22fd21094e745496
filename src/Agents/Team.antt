-- ===== src/Agents/Team.antt =====
-- ufoundry/agents/team_executor.py: what a team's run records of its shell commands, how its reply
-- is judged, and how it is retried.
pub mod Telemetry
pub mod Contract
pub mod Snapshot
pub mod Executor
pub mod Members
