-- ===== src/Tests/Program.antt =====
-- The program: its handlers, an E-Stop from end to end, stops, the constructor, frames within a
-- cycle.
use flowkernel.Base.{
  ℕ, ◌≡◌, ◌+◌, refl, List, [], ◌∷◌, ◌++◌, some, true, false, arith, sub64, u64, length, replicate,
  utf8, map,
}
use flowkernel.Base.Assoc.{lookup, emplace}
use flowkernel.Hash.{Bytes, fnv1a_hash, fnv_from, fnv_round}
use flowkernel.Mpsc.{push, pop, next_index, new_queue}
use flowkernel.Cache.Map.{samples}
use flowkernel.Liveliness.{delete, estop_message, liveliness_callback}
use flowkernel.Messages.{estop_type, estop}
use flowkernel.Main.{
  estop_arrived, on_message, not_started, looping, returned, Program, Happens, begins, does, happen,
  program,
}
use flowkernel.Main.Estop.{estop_handled}
use flowkernel.Main.Launch.{with_tui, launches, main}
use flowkernel.Main.Started.{shown, main_starts}
use flowkernel.Reactor.Stats.{get_handler_statuses}
use flowkernel.Main.Stopping.{stop_ends, stop_lost}
use flowkernel.Reactor.{
  critical, normal, CallbackContext, new_reactor, register_handler, CriticalSample, stop,
  record_latency, push_window,
}
use flowkernel.Reactor.Callback.{
  data_callback, route, enqueue, wake, track_session, robot_id, find, see, bytes_eq,
}
use flowkernel.Reactor.Events.{dispatch, await, called, timed_out, completed, handle_events}
use flowkernel.Reactor.Calls.{queue_calls, slot_calls}
use flowkernel.Reactor.Run.{sample, cycle, stops, resets}
use flowkernel.Reactor.Alone.{at_rest}
use flowkernel.Reactor.Boot.{booted}
use flowkernel.Reactor.OnlyCalls.{OnlyCalls}
use flowkernel.Reactor.Safe.{live-OnlyCalls}
use flowkernel.Reactor.Prompt.{handled_in_time}
use flowkernel.Reactor.Live.{
  emptying, resting, Live, LiveTurn, arrives, proceeds, wakes, halts, live, live_turn, proceed,
  begin_cycle, queue_round, slot_round, wake_up,
}
use flowkernel.Reactor.Delivery.{arrived}
use flowkernel.Reactor.Setup.{
  Answers, construct, destruct, held_after, left_by, leaked, if_constructed, construct_leaves,
}
use flowkernel.Tests.Data.{
  linux, robot, estop_path, pose_path, small_frame, robot-Represents, robot-IsIndexed, full_queue,
  full_queue-Represents,
}
use flowkernel.Tests.Boot.{accepted, topics}
use flowkernel.Tests.Yaml.{file}
use flowkernel.Tests.Wire.{wire, finish}

abbrev all_calls_succeed : Answers
all_calls_succeed = record {
  config_default = true;
  open_session = true;
  keyexpr_from_str = true;
  declare_publisher = true;
  queue_init = true;
  eventfd = true;
}

main_starts_example :
    (q : Program linux) × (main linux file ("flow.yaml" ∷ []) all_calls_succeed
      ≡ launches with_tui q)
    × (map shown (get_handler_statuses q.reactor)
        ≡ (utf8 "robot/1/estop", "CRITICAL") ∷ (utf8 "robot/1/map", "BACKGROUND") ∷ [])
    × (lookup (fnv1a_hash (utf8 "robot/1/map")) q.reactor.handler_index ≡ some 1)
    × (q.phase ≡ not_started)
unfolding fnv1a_hash fnv_from fnv_round flowkernel.Reactor.Handlers.first_with
main_starts_example =
    main_starts linux file ("flow.yaml" ∷ []) all_calls_succeed (fnv1a_hash (utf8 "robot/1/map"))

abbrev clock : ℕ → ℕ
clock n = 100 + n

abbrev estop_context : CallbackContext
estop_context = record { handler_hash = fnv1a_hash estop_path; priority = critical }

abbrev estop_buffer : Bytes
estop_buffer = finish (record {
  message_type = estop_type;
  seq = 0;
  payload = estop (record { timestamp = 77; reason = some "liveliness_lost" });
})

published : liveliness_callback wire delete 77 ≡ some estop_buffer
unfolding liveliness_callback estop_message
published = refl

indexed : lookup (fnv1a_hash estop_path) robot.handler_index ≡ some 0
unfolding register_handler new_reactor lookup emplace fnv1a_hash fnv_from fnv_round
indexed = refl

estop_handled_example :
    let r' = data_callback estop_context estop_path estop_buffer 1 80 robot in
    (linux.readable r'.wakeup ≡ true)
    × ((handle_events clock (completed 1 true) r').1
        ≡ queue_calls robot.handler_index []
          ++ called 0 estop_buffer ∷ []
          ++ slot_calls robot.handler_index (samples robot.background_cache.slots))
    × (on_message wire critical estop_buffer 90 ≡ some (estop_arrived (sub64 90 (u64 77))))
estop_handled_example =
    estop_handled wire estop_context estop_path 77 1 80 90 clock (completed 1 true) robot published
      refl robot-Represents (omega arith) robot-IsIndexed indexed

-- The thread runs, a sample has come.
abbrev busy : Program linux
busy = record { reactor = robot; phase = looping }

abbrev later : List Happens
later =
    does (sample estop_context estop_path small_frame 1 2)
    ∷ does (cycle clock timed_out)
    ∷ does resets
    ∷ []

stop_ends_example :
    let step = happen accepted accepted [] in
    let q' = step (does stops) busy in
    (linux.readable q'.reactor.wakeup ≡ true)
    × ((step (does (cycle clock timed_out)) (program accepted accepted [] later q')).phase
        ≡ returned)
stop_ends_example = stop_ends accepted accepted [] busy later clock timed_out (λ e. cc)

-- The thread has not entered `run` yet.
abbrev early : Program linux
early = record { reactor = robot; phase = not_started }

stop_lost_example :
    let step = happen accepted accepted [] in
    (program accepted accepted [] later (step (begins true) (step (does stops) early))).phase
    ≡ looping
stop_lost_example =
    stop_lost accepted accepted [] early true later refl ((λ e. cc), ((λ e. cc), ((λ e. cc), tt)))

-- All calls succeed but the one for the eventfd.
abbrev no_eventfd : Answers
no_eventfd = record all_calls_succeed { eventfd = false }

construct_leaves_example :
    let (error, steps) = construct no_eventfd in
    (held_after [] steps ≡ left_by error)
    × (held_after [] (steps ++ if_constructed error (destruct robot).1) ≡ leaked error)
construct_leaves_example = construct_leaves no_eventfd robot

-- A thread before its first cycle, with a frame that comes in the middle of it.
abbrev resting_robot : Live linux
resting_robot = record {
  reactor = record robot { running = true };
  phase = resting;
  queue_log = [];
  slot_log = [];
}

abbrev turns : List LiveTurn
turns =
    arrives estop_context estop_path small_frame 1 2
    ∷ proceeds clock
    ∷ proceeds clock
    ∷ arrives (record { handler_hash = fnv1a_hash pose_path; priority = normal }) pose_path
        small_frame 3 4
    ∷ proceeds clock
    ∷ halts
    ∷ proceeds clock
    ∷ wakes timed_out
    ∷ arrives estop_context estop_path small_frame 5 6
    ∷ []

-- Three frames come in, and two are handled, one of which came in the middle of the cycle.
two_handled :
    (length (arrived turns resting_robot) ≡ 3)
    × ((live turns resting_robot).queue_log ≡ called 0 small_frame ∷ called 1 small_frame ∷ [])
unfolding live live_turn proceed begin_cycle queue_round slot_round wake_up stop data_callback route
    enqueue wake track_session robot_id find see bytes_eq push pop next_index dispatch
    register_handler new_reactor new_queue lookup emplace fnv1a_hash fnv_from fnv_round await
    record_latency push_window flowkernel.Reactor.Events.dispatch_to
    flowkernel.Reactor.Events.call_handler flowkernel.Reactor.Events.count_frame
two_handled = (refl, refl)

-- The queue is full, and a frame arrives between two rounds of the cycle.
abbrev estop_frame : CriticalSample
estop_frame = record {
  handler_hash = fnv1a_hash estop_path;
  payload = small_frame;
  enqueue_time = 2;
}

abbrev in_cycle : Live linux
in_cycle = record {
  reactor = record robot { critical_queue = full_queue estop_frame };
  phase = emptying (record {
    queue = full_queue estop_frame;
    latencies = robot.latencies;
    trace = [];
    critical_count = 0;
    normal_count = 0;
    reads = 0;
  });
  queue_log = [];
  slot_log = [];
}

abbrev two_rounds : List LiveTurn
two_rounds =
    proceeds clock ∷ arrives estop_context estop_path small_frame 5 6 ∷ halts ∷ proceeds clock ∷ []

handled_in_time_example :
    (live two_rounds in_cycle).queue_log
    ≡ [] ++ queue_calls robot.handler_index (estop_frame ∷ estop_frame ∷ [])
handled_in_time_example =
    handled_in_time two_rounds in_cycle (estop_frame ∷ estop_frame ∷ []) (replicate 509 estop_frame)
      refl (full_queue-Represents estop_frame) robot-IsIndexed refl

live-OnlyCalls_example :
    let m = live turns (at_rest (booted linux accepted accepted [] topics true)) in
    OnlyCalls m.queue_log × OnlyCalls m.slot_log
live-OnlyCalls_example = live-OnlyCalls linux accepted accepted [] topics true turns
