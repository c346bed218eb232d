-- ===== src/Auth.antt =====
-- roboserver/auth: signatures, session tokens, the challenge-response handshake and signed heartbeats.
pub mod Verify
pub mod Jwt
pub mod Nonce
pub mod Heartbeat
pub mod Handshake
