-- ===== src/Http.antt =====
-- roboserver/http_server: what browsers and robots reach over HTTP.
pub mod LoginRate
pub mod UserSession
pub mod Account
pub mod Robots
pub mod Traffic
pub mod Handlers
