-- ===== src/Transport/Tcp.antt =====
-- roboserver/tcp_server/tcp_server.go from an accepted connection on. The connection is that of Conn;
-- what others do while a registration waits, whether a spawn by another connection ends in time, and
-- whether the server is shutting down when a line is read are arguments. Listening, TLS and the
-- back-off of Accept are not modelled.
pub mod Register
pub mod Session
pub mod Dispatch
