-- ===== src/Database/Keys.antt =====
-- The key schema of roboserver/database/redis.go and of the handler data in
-- roboserver/handler_engine/process.go: which keys belong to which family, and when they collide.
pub mod Schema
use robomesh.Prelude.{◌++◌, Text, codes}

unfoldable pub robot_key : Text → Text
robot_key uuid = codes "robot:" ++ (uuid ++ codes ":active")

unfoldable pub robot_public_key_key : Text → Text
robot_public_key_key uuid = codes "robot:" ++ (uuid ++ codes ":pubkey")

unfoldable pub pending_key : Text → Text
pending_key uuid = codes "robot:" ++ (uuid ++ codes ":pending")

pub registration_response_channel : Text → Text
registration_response_channel uuid = codes "robot:" ++ (uuid ++ codes ":reg_response")

unfoldable pub heartbeat_key : Text → Text
heartbeat_key uuid = codes "robot:" ++ (uuid ++ codes ":heartbeat")

unfoldable pub user_key : Text → Text
user_key username = codes "user:" ++ username

unfoldable pub user_session_key : Text → Text
user_session_key token = codes "session:" ++ token

unfoldable pub ticket_key : Text → Text
ticket_key ticket = codes "ticket:" ++ ticket

unfoldable pub redis_data_key : Text → Text → Text
redis_data_key uuid key = codes "handler:" ++ (uuid ++ (codes ":data:" ++ key))

unfoldable pub mqtt_nonce_key : Text → Text
mqtt_nonce_key uuid = codes "mqtt:nonce:" ++ uuid

unfoldable pub udp_nonce_key : Text → Text
udp_nonce_key uuid = codes "udp:nonce:" ++ uuid
