-- ===== src/Agent.antt =====
-- The program portal_agent: what it does with the requests that the package portal gives it.
pub mod Handler
pub mod Config
pub mod Websocket
pub mod Tunnel
pub mod Main
