-- ===== src/Tests/Frames.antt =====
-- Frames that arrive: registration, sessions, and the queue with room and without.
use flowkernel.Base.{
  ◌≡◌, refl, List, [], ◌∷◌, ◌++◌, none, some, true, false, arith, length-replicate, replicate,
}
use flowkernel.Base.Assoc.{lookup}
use flowkernel.Hash.{Bytes, fnv1a_hash}
use flowkernel.Mpsc.Represents.{Represents}
use flowkernel.Reactor.{
  TopicPriority, critical, normal, CriticalSample, CallbackContext, Reactor, new_reactor,
}
use flowkernel.Reactor.Callback.{robot_id, enqueue, data_callback, bytes_eq}
use flowkernel.Reactor.Stats.{get_sessions}
use flowkernel.Reactor.Handlers.{first_with, register_all, register_all-IsIndexed}
use flowkernel.Reactor.Sessions.{robot_prefix, session_of, robot_id_lem, session_of-data_callback}
use flowkernel.Reactor.Enqueue.{frame, enqueue-room, enqueue-full}
use flowkernel.Tests.Data.{
  linux, robot, estop_path, pose_path, small_frame, robot-Represents, full_queue,
  full_queue-Represents,
}

-- The path of the second registration is that of the first.
abbrev twice : List (Bytes × TopicPriority)
twice = (estop_path, critical) ∷ (estop_path, normal) ∷ (pose_path, normal) ∷ []

register_all-IsIndexed_example :
    let r = register_all twice (new_reactor linux) in
    lookup (fnv1a_hash pose_path) r.handler_index ≡ first_with (fnv1a_hash pose_path) 0 r.handlers
register_all-IsIndexed_example = register_all-IsIndexed linux twice (fnv1a_hash pose_path)

robot_id_lem_example :
    (robot_id (robot_prefix ++ (b'7' ∷ []) ++ b'/' ∷ b'x' ∷ []) ≡ some (robot_prefix ++ b'7' ∷ []))
    × (robot_id (robot_prefix ++ b'7' ∷ []) ≡ none)
robot_id_lem_example = robot_id_lem (b'7' ∷ []) (b'x' ∷ []) (omega arith, tt)

abbrev estop_context : CallbackContext
estop_context = record { handler_hash = fnv1a_hash estop_path; priority = critical }

abbrev robot_seven : Bytes
robot_seven = robot_prefix ++ b'7' ∷ []

session_of-data_callback_example :
    session_of robot_seven (
      get_sessions 9000 (
        data_callback estop_context
          (robot_prefix ++ (b'7' ∷ []) ++ b'/' ∷ b'x' ∷ [])
          small_frame
          1000
          5
          robot))
    ≡ some (record { robot_id = robot_seven; online = false; last_seen_ms = 8000 })
unfolding bytes_eq
session_of-data_callback_example =
    session_of-data_callback estop_context (b'7' ∷ []) (b'x' ∷ []) small_frame robot_seven 1000 5
      9000 robot (omega arith, tt) (omega arith) refl (omega arith) (omega arith)

enqueue-room_example :
    let r' = enqueue estop_context small_frame 5 robot in
    Represents 9 r'.critical_queue
      (record { items = frame estop_context small_frame 5 ∷ []; lost = 0 })
    × (r'.wakeup ≡ true)
enqueue-room_example = enqueue-room estop_context small_frame 5 robot robot-Represents (omega arith)

abbrev pose_frame : CriticalSample
pose_frame = record { handler_hash = fnv1a_hash pose_path; payload = small_frame; enqueue_time = 4 }

-- 511 NORMAL frames wait when the CRITICAL one arrives.
abbrev busy : Reactor linux
busy = record robot { critical_queue = full_queue pose_frame }

enqueue-full_example :
    let r' = enqueue estop_context small_frame 5 busy in
    Represents 9 r'.critical_queue (record { items = replicate 511 pose_frame; lost = 1 })
    × (r'.wakeup ≡ busy.wakeup)
enqueue-full_example =
    enqueue-full estop_context small_frame 5 busy (full_queue-Represents pose_frame)
      (length-replicate 511 pose_frame)
