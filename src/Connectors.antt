-- ===== src/Connectors.antt =====
-- ufoundry/connectors: what guards the sending of messages.
pub mod Resilience
mod Tests
