-- ===== src/Tools.antt =====
-- ufoundry/tools: what the tools of the assistant share.
pub mod Registry
pub mod Workspace
mod Tests
