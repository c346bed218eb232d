-- ===== src/Database.antt =====
-- roboserver/database: what the server asks of Redis and of PostgreSQL, and the typed operations
-- of redis.go and postgres.go above them.
pub mod Client
pub mod Keys
pub mod Redis
pub mod Postgres
