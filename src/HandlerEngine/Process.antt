-- ===== src/HandlerEngine/Process.antt =====
-- roboserver/handler_engine/process.go: one handler process, its bounded queue of messages to the
-- script and its life from spawn to stop. A method that mutates the process returns the new record.
-- The script, its pipes and the waiting of Stop are not modelled; a link stands for the RobotSend
-- callback, a subscription for the function that cancels it.
pub mod Life
use robomesh.Prelude.{
  ℕ, ◌≤◌, Bool, true, false, Option, none, some, List, [], ◌∷◌, ◌++◌, Text, codes, length, ltb,
  if◌then◌else◌,
}
use robomesh.HandlerEngine.Message.{Message, connect, disconnect, incoming}

-- Where RobotSend writes: a TCP connection, a UDP address, an MQTT topic, a reverse connection.
pub data Link : Type 0 where
  tcp_link udp_link mqtt_link reverse_link : Text → Link

-- Cancels the subscription of a topic under an identity on the event bus.
pub record Subscription : Type 0 where
  pub topic : Text
  pub subscriber : ℕ

pub record HandlerProcess : Type 0 where
  pub uuid : Text
  pub device_type : Text
  pub ip : Text
  pub session_id : Text
  pub pid : ℕ
  pub closed : Bool
  pub write_ch : List Message
  pub robot_send : Option Link
  pub subscriptions : List Subscription
  pub forward_heartbeats : Bool

-- The capacity of writeCh.
abbrev pub write_capacity : ℕ
write_capacity = 256

-- select { case hp.writeCh <- data: default: }
unfoldable pub offer : Message → HandlerProcess → HandlerProcess
offer msg hp =
    if ltb (length hp.write_ch) write_capacity
    then record hp { write_ch = hp.write_ch ++ msg ∷ [] }
    else hp

unfoldable pub send_to_script : Message → HandlerProcess → HandlerProcess
unfolding offer
send_to_script msg hp = if hp.closed then hp else offer msg hp

unfoldable pub new_process : Text → Text → Text → Text → ℕ → Option Link → HandlerProcess
new_process uuid device_type ip session_id pid robot_send = record {
  uuid = uuid;
  device_type = device_type;
  ip = ip;
  session_id = session_id;
  pid = pid;
  closed = false;
  write_ch = [];
  robot_send = robot_send;
  subscriptions = [];
  forward_heartbeats = false;
}

unfoldable pub reattach : Option Link → Text → Text → HandlerProcess → HandlerProcess
unfolding send_to_script
reattach robot_send ip session_id hp =
    send_to_script (connect hp.uuid hp.device_type ip session_id)
      (record hp { robot_send = robot_send; ip = ip; session_id = session_id })

unfoldable pub send_incoming : Text → HandlerProcess → HandlerProcess
unfolding send_to_script
send_incoming payload hp = send_to_script (incoming hp.uuid payload) hp

unfoldable pub send_disconnect : Text → HandlerProcess → HandlerProcess
unfolding offer
send_disconnect reason hp =
    if hp.closed then hp else offer (disconnect hp.uuid reason) (record hp { robot_send = none })

-- The copy under the lock of SendToRobot: where a payload for the robot goes, if anywhere.
unfoldable pub robot_link : HandlerProcess → Option Link
robot_link hp = hp.robot_send

-- What Stop does to the process, and the subscriptions that it cancels.
unfoldable pub close : Text → HandlerProcess → HandlerProcess × List Subscription
unfolding offer
close reason hp = if hp.closed then (hp, []) else (
  record (offer (disconnect hp.uuid reason) (record hp { closed = true })) { subscriptions = [] },
  hp.subscriptions,
)

-- The writer takes the oldest message.
unfoldable pub write_next : HandlerProcess → Option (Message × HandlerProcess)
write_next hp = go hp.write_ch
  where
    go : List Message → Option (Message × HandlerProcess)
    go [] = none
    go (m ∷ rest) = some (m, record hp { write_ch = rest })
