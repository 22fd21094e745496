-- ===== src/Llm.antt =====
-- ufoundry/llm: what stands between the agents and a model's API.
mod Tests
pub mod RateLimiter
pub mod Scheduler
