-- ===== src/Liveliness.antt =====
-- `zenoh_liveliness_callback` of src/reactor.cpp: the E-Stop that is published when a robot is
-- gone.
use flowkernel.Base.{ℕ, Option, none, some, u64}
use flowkernel.Hash.{Bytes}
use flowkernel.Platform.{Platform}
use flowkernel.Messages.{estop_type, estop, RobotMessage, FlatBuffers}

-- `z_sample_kind`
pub data SampleKind : Type 0 where
  put delete : SampleKind

unfoldable pub estop_message : (Float : Type 0) → ℕ → RobotMessage Float
estop_message Float now_ns = record {
  message_type = estop_type;
  seq = 0;
  payload = estop (record { timestamp = u64 now_ns; reason = some "liveliness_lost" });
}

-- The buffer handed to `z_publisher_put`, if the callback comes to it; `now_ns` is the steady
-- clock.
unfoldable pub liveliness_callback : {p : Platform} → FlatBuffers p → SampleKind → ℕ → Option Bytes
liveliness_callback fb put now_ns = none
liveliness_callback fb delete now_ns = some (fb.finish (estop_message fb.Float now_ns))
