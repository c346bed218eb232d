-- ===== src/Examples.antt =====
-- Concrete instances of what the development takes as parameters (a store, a registry, key checks,
-- codecs), and the theorems at work on them.
pub mod Codecs
pub mod Parts
pub mod Robots
pub mod Keys
pub mod Handlers
pub mod Connections
pub mod Browsers
pub mod Datagrams
pub mod Buses
pub mod Requests
pub mod Terminals
