-- ===== src/Examples.antt =====
-- The Python of examples/: a client of the gateway, and a feature that the gateway calls.
pub mod AgentClient
pub mod Echo
