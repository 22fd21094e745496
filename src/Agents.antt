-- ===== src/Agents.antt =====
-- ufoundry/agents: a spawned agent with its tool loop, and teams of agents.
mod Tests
pub mod Trim
pub mod Agent
pub mod Team
pub mod Orchestrator
pub mod TeamRegistry
