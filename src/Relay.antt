-- ===== src/Relay.antt =====
-- server/relay: the in-memory relay between phones and daemons.
pub mod Limiter
pub mod Hub
pub mod Endpoint
