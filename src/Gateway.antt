-- ===== src/Gateway.antt =====
-- The gateway's authorization of external events: src/thorn/gateway.
pub mod Event
pub mod Envelope
pub mod Peer
pub mod Policy
pub mod Formatter
