-- ===== src/Gateway.antt =====
-- ufoundry/gateway.py and what it routes by: the control panels and the router.
pub mod Panels
pub mod Router
pub mod Events
mod Tests
