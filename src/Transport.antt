-- ===== src/Transport.antt =====
-- The transports by which robots reach the server: roboserver/tcp_server, udp_server and mqtt_server.
pub mod World
pub mod Tcp
pub mod Mqtt
pub mod Challenge
pub mod Udp
pub mod Kept
