-- ===== src/Portal.antt =====
-- The package portal: the agent's side of the connection.
pub mod Writer
pub mod Agent
pub mod Service
pub mod Request
pub mod Websocket
pub mod Exchange
pub mod Receive
pub mod Session
