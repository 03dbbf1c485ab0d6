-- ===== src/Tests.antt =====
-- Runs of the definitions on small inputs, and the theorems at inputs that meet their hypotheses.
mod Codec
mod Wire
mod Senders
mod Channels
mod Writer
mod Agent
mod Clients
mod Connection
mod Tunnel
mod Proxy
mod Relay
mod Service
mod Http
mod Agreement
mod System
mod Requests
mod Visit
mod Offers
