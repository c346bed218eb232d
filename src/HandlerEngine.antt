-- ===== src/HandlerEngine.antt =====
-- roboserver/handler_engine: the manager of handler processes, the processes themselves and the
-- requests that handler scripts send.
pub mod Registry
pub mod Manager
pub mod Message
pub mod Process
pub mod Heap
pub mod Route
