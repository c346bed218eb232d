-- ===== src/Lib.antt =====
-- Robomesh: a server (roboserver, in Go) between robots, handler scripts and browsers. A robot proves
-- who it is by a signature, or registers and waits for a person; it is then given a session, and a
-- handler process that its messages go to. This library models the server's core as functions and
-- proves what they are meant to guarantee.
--
-- The parts, and the files that model them:
-- - Prelude: byte strings and the functions of Go's strings package, maps, int64, results, and the
--   hexadecimal coding of encoding/hex.
-- - Database (roboserver/database): the records in Redis, their keys, and each typed operation over a
--   client. Client states what is relied on of Redis and of encoding/json; Postgres what is relied
--   on of the table of robots; Keys/Schema which keys can coincide; Redis/Laws what the operations
--   promise; Redis/Listing the listings by SCAN, Redis/Response the answer to a
--   registration.
-- - Conn: a line-based connection, and handlers on it that may return early.
-- - Auth (roboserver/auth): Verify for verify.go, Jwt for jwt.go and user_jwt.go, Nonce for nonce.go,
--   Handshake for handshake.go and Heartbeat for heartbeat_handler.go.
-- - HandlerEngine (roboserver/handler_engine): Manager for manager.go, with its lock as a step
--   relation in Manager/Spawning; Process for the record of process.go and its queue; Heap for the
--   processes that the manager and the connections share by pointer; Route for the requests of
--   handler scripts, with reverse_connect.go up to the dialling; Registry for the pattern of
--   registry.go; Message for types.go.
-- - Transport: World is the state that the servers share and the start of a handler; Tcp is
--   roboserver/tcp_server/tcp_server.go (Register for REGISTER, Session for the session and PERSIST,
--   Dispatch for the commands of a connection); Challenge has the two steps of authentication that
--   udp_server/udp_server.go and mqtt_server/mqtt_server.go share line by line; Udp is the rest of
--   the former, Mqtt is mqtt_server/acl_hook.go, and Mqtt/Protocol the hooks of mqtt_server.go and
--   bridge_hook.go. Kept says which keys of Redis the common steps leave alone.
-- - EventBus (roboserver/shared/event_bus) has subscribers and handlers by event type, Comms
--   (roboserver/comms/local.go) the bus over it and the groups of competing consumers.
-- - DataStructures (roboserver/shared/data_structures): Set is what the set of subscribers promises.
-- - Http (roboserver/http_server): LoginRate for the limiter of log-in attempts, UserSession for
--   log-in, log-out and the check of sessions, Account for tickets and passwords, all of auth.go;
--   Robots for provision.go and ephemeral.go, Traffic for register.go, robot.go and heartbeat.go,
--   Handlers for handler.go.
-- - Terminal (roboserver/terminal): the loop of a connection with its subscriptions; Commands for
--   init.go and the commands that leave these alone.
-- - Examples: concrete stores, registries, codecs and key checks, and the theorems at work on them.
--
-- How they meet: Dispatch runs a handshake or a registration on the connection, which read and write
-- Redis through Database; the session that results is attached to a process of Heap through the
-- manager; the lines of the session go to the queue of that process; the process answers the
-- requests of its script by Route. A datagram or a message to the broker does the same without a
-- connection: the nonce waits in Redis between two packets.
--
-- State and effects. A function that changes state returns the new state. Errors are values of the
-- types DbError, VerifyError, JwtError, HandshakeError, HeartbeatError and RegisterError. Reads of
-- the clock and of crypto/rand are arguments, as are what other connections do while one waits and
-- whether the server is shutting down when a line is read. Numbers of type int64 are integers with
-- their wrap-around at multiplication and addition written out; counters of type uint64 wrap at
-- 2^64. Loops are recursions on the lines, the handlers or the members they go through. Fuel is
-- needed once, for the calls that Unsubscribe of the event bus makes of itself: 2 is enough wherever
-- it returns at all.
--
-- Parameters: the Redis client with SCAN and PUBLISH, the SQL statements, encoding/json, HMAC, base64,
-- the checks of crypto/ed25519 and crypto/ecdsa, bcrypt, the start of a script and the subscription on
-- the event bus.
--
-- Not modelled: listening, TLS, read deadlines and panics of the servers; operating-system processes
-- and pipes; a server without its databases; events.go of http_server, the streams of events and logs
-- to browsers, the queues of data_structures and the configuration. Calls of the event bus that
-- overlap are not modelled: one call follows the other.
mod Prelude
pub mod Database
pub mod Conn
pub mod Auth
pub mod HandlerEngine
pub mod Transport
pub mod Http
pub mod DataStructures
pub mod EventBus
pub mod Comms
pub mod Terminal
pub mod Examples
