-- ===== src/System.antt =====
-- portal/portal.go and portal_server/proxy_server.go together: what the agent writes on its connection
-- is what the server reads on its own, and the other way round.
pub mod Exchange
pub mod Login
pub mod Relay
pub mod Answer
pub mod Visit
