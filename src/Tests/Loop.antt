-- ===== src/Tests/Loop.antt =====
-- Cycles of the reactor's thread on concrete reactors.
use flowkernel.Base.{
  none, ◌≢◌, ◌%◌, some, ◌++◌, ℕ, ◌+◌, ◌^◌, ◌≡◌, refl, List, [], ◌∷◌, true, false, arith,
}
use flowkernel.Base.Assoc.{lookup, emplace}
use flowkernel.Hash.{fnv1a_hash, fnv_from, fnv_round}
use flowkernel.Mpsc.{Queue, push}
use flowkernel.Mpsc.Fifo.{fifo_push}
use flowkernel.Mpsc.Represents.{Represents}
use flowkernel.Mpsc.Refine.{push_refines}
use flowkernel.Cache.{LatestSampleCache}
use flowkernel.Cache.Map.{AllEmpty}
use flowkernel.Reactor.{
  background, CallbackContext, CriticalSample, Reactor, new_reactor, register_handler,
}
use flowkernel.Reactor.Events.{called, timed_out, handle_events}
use flowkernel.Reactor.Run.{Action, cycle, stops, history}
use flowkernel.Reactor.Dispatch.{holding}
use flowkernel.Reactor.Cycle.{handle_events_calls}
use flowkernel.Reactor.Wakeup.{OnlyTimeouts, unpolled_forever}
use flowkernel.Reactor.SlotBalance.{in_slots, slots_conserve}
use flowkernel.Reactor.Slotted.{slot_frames}
use flowkernel.Reactor.Live.{LiveTurn, arrives, proceeds, resting, live}
use flowkernel.Reactor.Alone.{whole_cycle, at_rest}
use flowkernel.Reactor.Quiet.{Cycled, quiet_cycle}
use flowkernel.Reactor.Sound.{IsSound}
use flowkernel.Tests.Data.{
  linux, robot, robot-Represents, robot-IsIndexed, estop_path, pose_path, video_path,
}

abbrev pose_frame : CriticalSample
pose_frame = record { handler_hash = fnv1a_hash pose_path; payload = 4 ∷ []; enqueue_time = 10 }

abbrev estop_frame : CriticalSample
estop_frame = record { handler_hash = fnv1a_hash estop_path; payload = 5 ∷ []; enqueue_time = 20 }

-- A NORMAL frame in the queue, then a CRITICAL one.
abbrev two_frames : Queue CriticalSample
two_frames = (push (2 ^ 9) (push (2 ^ 9) robot.critical_queue pose_frame).1 estop_frame).1

two_frames-Represents : Represents 9 two_frames (holding (pose_frame ∷ estop_frame ∷ []) 0)
unfolding fifo_push
two_frames-Represents =
    (push_refines estop_frame (push_refines {k = 9} pose_frame robot-Represents).1).1

-- A frame waits in the slot of the third handler.
abbrev one_waits : LatestSampleCache
one_waits = record {
  slots =
      (
        fnv1a_hash video_path,
        record {
          payload = 6 ∷ [];
          has_data = true;
          handler_hash = fnv1a_hash video_path;
          drop_count = 0;
          put_time = 5;
        },
      )
      ∷ [];
}

abbrev loaded : Reactor linux
loaded = record robot { running = true; critical_queue = two_frames; background_cache = one_waits }

abbrev clock : ℕ → ℕ
clock n = 100 + n

handle_events_calls_example :
    let (r', trace) = handle_events clock timed_out loaded in
    (trace ≡ called 1 (4 ∷ []) ∷ called 0 (5 ∷ []) ∷ called 2 (6 ∷ []) ∷ [])
    × Represents 9 r'.critical_queue (holding [] 0)
    × AllEmpty r'.background_cache.slots
unfolding register_handler new_reactor lookup emplace fnv1a_hash fnv_from fnv_round
handle_events_calls_example =
    handle_events_calls clock timed_out loaded two_frames-Represents robot-IsIndexed

abbrev unpolled_reactor : Reactor linux
unpolled_reactor = record loaded { polled = false }

abbrev idle_actions : List Action
idle_actions = cycle clock timed_out ∷ stops ∷ []

unpolled_forever_example :
    ((history idle_actions unpolled_reactor).0.polled ≡ false) × OnlyTimeouts idle_actions
unpolled_forever_example = unpolled_forever idle_actions unpolled_reactor refl (tt, (tt, tt))

loaded-IsSound : IsSound 0 0 loaded
unfolding register_handler new_reactor
loaded-IsSound = record {
  frames = holding (pose_frame ∷ estop_frame ∷ []) 0;
  held = two_frames-Represents;
  narrow = omega arith;
  indexed = robot-IsIndexed;
  accounted = record {
    wide = record {
      critical_wide = omega arith;
      normal_wide = omega arith;
      background_wide = omega arith;
      queue_wide = omega arith;
      bg_wide = omega arith;
    };
    queue_side = refl;
    bg_side = refl;
  };
}

quiet_cycle_example :
    let m = live (whole_cycle clock 2 1 timed_out) (at_rest loaded) in
    Cycled loaded
      (holding (pose_frame ∷ estop_frame ∷ []) 0)
      0
      0
      m.reactor
      (m.queue_log ++ m.slot_log)
    × (m.phase ≡ resting)
quiet_cycle_example =
    quiet_cycle clock timed_out loaded (holding (pose_frame ∷ estop_frame ∷ []) 0) 0 0
      two_frames-Represents refl loaded-IsSound

-- The topic of the slot has a handler.
video_indexed : lookup (fnv1a_hash video_path) robot.handler_index ≡ some 2
unfolding register_handler new_reactor lookup emplace fnv1a_hash fnv_from fnv_round
video_indexed = refl

video_known : lookup (fnv1a_hash video_path) robot.handler_index ≢ none
video_known e = let at = video_indexed in cc

abbrev video_context : CallbackContext
video_context = record { handler_hash = fnv1a_hash video_path; priority = background }

-- A second frame for the slot before it is read, and one after.
abbrev video_turns : List LiveTurn
video_turns =
    arrives video_context video_path (1 ∷ 2 ∷ 3 ∷ 4 ∷ []) 7 8
    ∷ proceeds clock
    ∷ proceeds clock
    ∷ proceeds clock
    ∷ proceeds clock
    ∷ proceeds clock
    ∷ arrives video_context video_path (1 ∷ 2 ∷ 3 ∷ 4 ∷ []) 9 10
    ∷ []

slots_conserve_example :
    in_slots (live video_turns (at_rest loaded)) % 2 ^ 64
    ≡ (in_slots (at_rest loaded) + slot_frames video_turns (at_rest loaded)) % 2 ^ 64
slots_conserve_example =
    slots_conserve video_turns (at_rest loaded) ((video_known, λ _. video_known), tt)
