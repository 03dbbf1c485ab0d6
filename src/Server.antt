-- ===== src/Server.antt =====
-- portal_server/, the server.
pub mod Clients
pub mod Relay
pub mod Service
pub mod Connection
pub mod Listener
pub mod Tunnel
pub mod Config
pub mod Http
pub mod Main
