-- ===== src/HandlerEngine/Message.antt =====
-- roboserver/handler_engine/types.go: the envelopes that handler scripts write and the messages that
-- they are sent. A message stands for its JSON line.
use robomesh.Prelude.{Bool, List, Text}
use robomesh.Prelude.Int.{ℤ}
use robomesh.Database.Postgres.{RobotRecord}

-- A decoded JSON value, as an interface{}.
mutual
  pub data Value : Type 0 where
    null : Value
    bool : Bool → Value
    number : ℤ → Value
    str : Text → Value
    array : Items → Value
    object : Fields → Value

  pub data Items : Type 0 where
    nil : Items
    item : Value → Items → Items

  pub data Fields : Type 0 where
    end : Fields
    field : Text → Value → Fields → Fields

pub record Envelope : Type 0 where
  pub id : Text
  pub target : Text
  pub method : Text
  pub content : Value

-- The Data of a response.
pub data Answer : Type 0 where
  nothing : Answer
  word : Text → Answer
  flag : Bool → Answer
  value : Value → Answer
  robot : RobotRecord → Answer
  robots : List RobotRecord → Answer

-- The Error of a response: none, a text of this package, or the text of another package's error.
pub data Failure : Type 0 where
  no_failure : Failure
  message : Text → Failure
  from_error : Failure

pub data Message : Type 0 where
  connect : (uuid device_type ip session_id : Text) → Message
  disconnect : (uuid reason : Text) → Message
  incoming : (uuid payload : Text) → Message
  event : (event_type : Text) → Value → Message
  heartbeat : (event_type : Text) → Value → Message
  response : (id : Text) → Answer → Failure → Message
