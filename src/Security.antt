-- ===== src/Security.antt =====
-- ufoundry/security: roles that limit tools, and the guard of outgoing requests.
mod Tests
pub mod Policy
pub mod Ssrf
pub mod Masking
pub mod PiiFilter
