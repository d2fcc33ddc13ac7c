-- ===== src/Messages.antt =====
-- The messages of fbs/robot_state.fbs, and what the generated FlatBuffers code does with them.
use Prim.Native.String.{String}
use flowkernel.Base.{ℕ, ◌≡◌, ◌≢◌, Option, true, length}
use flowkernel.Hash.{Bytes}
use flowkernel.Platform.{Platform}

pub data MessageType : Type 0 where
  telemetry_type control_type estop_type : MessageType

module _ (Float : Type 0) where
  pub record Vec3 : Type 0 where
    pub x : Float
    pub y : Float
    pub z : Float

  pub record Telemetry : Type 0 where
    pub timestamp : ℕ
    pub pos : Option Vec3
    pub vel : Option Vec3
    pub battery_voltage : Float
    pub cpu_usage : Float

  pub record ControlCommand : Type 0 where
    pub timestamp : ℕ
    pub linear_vel : Option Vec3
    pub angular_vel : Option Vec3

pub record EStop : Type 0 where
  pub timestamp : ℕ
  pub reason : Option String

pub data MessagePayload (Float : Type 0) : Type 0 where
  no_payload : MessagePayload Float
  telemetry : Telemetry Float → MessagePayload Float
  control : ControlCommand Float → MessagePayload Float
  estop : EStop → MessagePayload Float

pub record RobotMessage (Float : Type 0) : Type 0 where
  pub message_type : MessageType
  pub seq : ℕ
  pub payload : MessagePayload Float

-- `FlatBufferBuilder` with the generated `Create...` functions, and `GetRobotMessage` with the
-- accessors. The laws: a finished buffer is not empty, passes the verifier and reads back.
pub record FlatBuffers (p : Platform) : Type 1 where
  pub Float : Type 0
  pub finish : RobotMessage Float → Bytes
  pub get_robot_message : Bytes → RobotMessage Float
  pub finish-verify : (m : RobotMessage Float) → p.verify (finish m) ≡ true
  pub finish_not_empty : (m : RobotMessage Float) → length (finish m) ≢ 0
  pub get_robot_message-finish : (m : RobotMessage Float) → get_robot_message (finish m) ≡ m
