-- ===== src/Policy.antt =====
-- ufoundry/policy: the declarative rules and the engine that guards risky tool calls.
mod Tests
pub mod Rules
pub mod Engine
