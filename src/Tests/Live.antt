-- ===== src/Tests/Live.antt =====
-- Statistics that other threads reset while a cycle runs.
use flowkernel.Base.{
  sub64, ◌%◌, ◌≢◌, none, false, ◌++◌, add64, length, ℕ, ◌+◌, true, ◌≡◌, ◌-◌, ◌^◌, refl, List, [],
  ◌∷◌, arith,
}
use flowkernel.Base.Assoc.{lookup, emplace}
use flowkernel.Hash.{fnv1a_hash, fnv_from, fnv_round}
use flowkernel.Reactor.Run.{start}
use flowkernel.Cache.{get_total_dropped}
use flowkernel.Cache.Waiting.{waiting_frames}
use flowkernel.Reactor.Slotted.{slot_frames}
use flowkernel.Reactor.SlotReported.{every_slot_sample_reported}
use flowkernel.Reactor.Reported.{reported, unreported, every_sample_reported}
use flowkernel.Mpsc.{dropped_count, push, next_index}
use flowkernel.Reactor.{
  background, arm_poll_eventfd, critical, normal, Reactor, CriticalSample, CallbackContext,
  register_handler, new_reactor,
}
use flowkernel.Reactor.Callback.{
  data_callback, route, enqueue, wake, track_session, robot_id, find, see, bytes_eq,
}
use flowkernel.Reactor.Events.{Cycle, completed}
use flowkernel.Reactor.Boot.{booted, booted-IsSound}
use flowkernel.Reactor.Alone.{at_rest}
use flowkernel.Reactor.Sound.{IsSound}
use flowkernel.Reactor.Live.{
  emptying, Live, LiveTurn, arrives, proceeds, wakes, halts, resets_all, live,
}
use flowkernel.Reactor.Unreset.{unreset-IsSound}
use flowkernel.Reactor.OneLook.{others, interrupted, one_look}
use flowkernel.Mpsc.Fifo.{Fifo}
use flowkernel.Mpsc.Represents.{Represents}
use flowkernel.Reactor.Calls.{queue_calls}
use flowkernel.Reactor.Offered.{Shuffle, offered}
use flowkernel.Reactor.Conserved.{live_conserves}
use flowkernel.Reactor.Flood.{flood, stop_starves}
use flowkernel.Reactor.Tallied.{background_pending, Uncounted, IsTallied, uncounted, live-IsTallied}
use flowkernel.Reactor.ResetRace.{
  begun, shared, SyncTurn, comes, after_look, after_reset, reset_between, syncing, sync_turn,
  advance,
}
use flowkernel.Tests.Data.{
  video_path, robot-Represents, robot-IsIndexed, linux, robot, estop_path, pose_path, small_frame,
  full_queue,
}
use flowkernel.Tests.Boot.{accepted, topics}

abbrev clock : ℕ → ℕ
clock n = 100 + n

abbrev estop_context : CallbackContext
estop_context = record { handler_hash = fnv1a_hash estop_path; priority = critical }

abbrev video_context : CallbackContext
video_context = record { handler_hash = fnv1a_hash video_path; priority = background }

-- An E-Stop, half a cycle, a reset, and the rest of the cycle with one more frame.
abbrev turns : List LiveTurn
turns =
    arrives estop_context estop_path small_frame 1 2
    ∷ proceeds clock
    ∷ proceeds clock
    ∷ resets_all
    ∷ arrives (record { handler_hash = fnv1a_hash pose_path; priority = normal }) pose_path
        small_frame 3 4
    ∷ proceeds clock
    ∷ proceeds clock
    ∷ proceeds clock
    ∷ halts
    ∷ wakes (completed 1 true)
    ∷ []

abbrev none_left_out : Uncounted
none_left_out = record { criticals = 0; others = 0; backgrounds = 0 }

live-IsTallied_example :
    let m = at_rest robot in IsTallied (uncounted turns m none_left_out) (live turns m)
unfolding register_handler new_reactor
live-IsTallied_example =
    live-IsTallied turns (at_rest robot) none_left_out
      (record { criticals = refl; others = refl; backgrounds = refl })

live_conserves_example :
    let m = at_rest robot in
    let m' = live turns m in
    let calls = queue_calls robot.handler_index in
    (taken : List CriticalSample) × (dropped : List CriticalSample) × (g : Fifo CriticalSample)
    × Shuffle taken dropped (offered linux turns)
    × Represents 9 m'.reactor.critical_queue g
    × (m'.queue_log ++ calls g.items ≡ [] ++ calls ([] ++ taken))
    × (dropped_count m'.reactor.critical_queue
        ≡ add64 (dropped_count robot.critical_queue) (length dropped))
live_conserves_example =
    live_conserves turns (at_rest robot) robot-Represents (omega arith) robot-IsIndexed

abbrev full_of : CriticalSample
full_of = record { handler_hash = fnv1a_hash estop_path; payload = small_frame; enqueue_time = 2 }

abbrev full_robot : Reactor linux
full_robot = record robot { critical_queue = full_queue full_of }

abbrev one_comes : List SyncTurn
one_comes = comes estop_context estop_path small_frame 5 6 ∷ []

one_dropped : dropped_count (after_look one_comes full_robot).reactor.critical_queue ≡ 1
unfolding syncing sync_turn advance data_callback route enqueue wake track_session robot_id find see
    bytes_eq push next_index dropped_count
one_dropped = refl

reset_between_example :
    let r' = (after_reset (after_look one_comes full_robot)).reactor in
    (r'.counters.critical_dropped ≡ 2 ^ 64 - 1)
    × (r'.counters.normal_dropped ≡ 0)
    × (dropped_count r'.critical_queue
        ≡ dropped_count (after_look one_comes full_robot).reactor.critical_queue)
unfolding dropped_count
reset_between_example =
    reset_between full_robot one_comes 1 tt (omega arith) (omega arith) (omega arith) one_dropped

-- The loop over an empty queue, just before its last round.
abbrev last_round : Cycle ℕ
last_round = record {
  queue = robot.critical_queue;
  latencies = robot.latencies;
  trace = [];
  critical_count = 0;
  normal_count = 0;
  reads = 0;
}

abbrev in_loop : Live linux
in_loop = record (at_rest robot) { phase = emptying last_round }

abbrev two_samples : List LiveTurn
two_samples =
    arrives estop_context estop_path small_frame 1 2
    ∷ arrives estop_context estop_path small_frame 3 4
    ∷ []

stop_starves_example :
    let m' = live (halts ∷ flood clock two_samples) in_loop in
    (cy' : Cycle ℕ) × (m'.phase ≡ emptying cy') × (m'.reactor.running ≡ false) × (m'.slot_log ≡ [])
stop_starves_example =
    stop_starves clock two_samples in_loop refl robot-Represents (omega arith)
      ((λ e. cc), ((λ e. cc), tt))

-- Two E-Stops, one of them in the middle of a cycle.
abbrev two_stops : List LiveTurn
two_stops =
    arrives estop_context estop_path small_frame 1 2
    ∷ proceeds clock
    ∷ proceeds clock
    ∷ arrives estop_context estop_path small_frame 3 4
    ∷ proceeds clock
    ∷ halts
    ∷ []

unreset-IsSound_example :
    IsSound 0 0 (live two_stops (at_rest (booted linux accepted accepted [] topics true))).reactor
unreset-IsSound_example =
    unreset-IsSound two_stops (at_rest (booted linux accepted accepted [] topics true)) 0 0 tt
      (booted-IsSound linux accepted accepted [] topics true)

-- The queue is full, and two more frames come during the look at its drops.
one_look_example :
    let r : Reactor linux = record full_robot { running = true } in
    let s = syncing (interrupted one_comes [] one_comes) (record { reactor = r; phase = begun }) in
    (s.phase ≡ shared)
    × (s.reactor ≡ (live (proceeds clock ∷ others (one_comes ++ one_comes)) (at_rest r)).reactor)
one_look_example =
    one_look clock (record full_robot { running = true }) one_comes [] one_comes refl tt tt tt

-- Five frames were dropped, and two of them have been reported.
abbrev five_dropped : Reactor linux
five_dropped = record robot {
  critical_queue = record (full_queue full_of) { dropped = 5 };
  counters = record robot.counters { normal_dropped = 2; last_queue_dropped = 2 };
}

estop_handled :
    lookup (fnv1a_hash estop_path) (booted linux accepted accepted [] topics true).handler_index
    ≢ none
unfolding start register_handler new_reactor arm_poll_eventfd lookup emplace fnv1a_hash fnv_from
    fnv_round
estop_handled e = cc

every_sample_reported_example :
    let r = booted linux accepted accepted [] topics true in
    let m = live two_stops (at_rest r) in
    (g : Fifo CriticalSample) × Represents 9 m.reactor.critical_queue g
    × ((reported m + unreported m + length (queue_calls r.handler_index g.items)) % 2 ^ 64 ≡ 2)
every_sample_reported_example =
    every_sample_reported linux accepted accepted [] topics true two_stops tt
      (estop_handled, (estop_handled, tt))

-- Three frames for one slot: the second replaces the first, and the third comes after the second has
-- been handled.
abbrev three_videos : List LiveTurn
three_videos =
    arrives video_context video_path small_frame 1 2
    ∷ arrives video_context video_path small_frame 3 4
    ∷ proceeds clock
    ∷ proceeds clock
    ∷ proceeds clock
    ∷ arrives video_context video_path small_frame 5 6
    ∷ []

every_slot_sample_reported_example :
    let r = booted linux accepted accepted [] topics true in
    let m = live three_videos (at_rest r) in
    let c = m.reactor.counters in
    let cache = m.reactor.background_cache in
    (c.background_processed
        + c.background_dropped
        + background_pending m.phase
        + sub64 (get_total_dropped cache) c.last_bg_dropped
        + waiting_frames cache.slots)
      % 2 ^ 64
    ≡ slot_frames three_videos (at_rest r) % 2 ^ 64
every_slot_sample_reported_example =
    every_slot_sample_reported linux accepted accepted [] topics true three_videos tt

three_come : slot_frames three_videos (at_rest (booted linux accepted accepted [] topics true)) ≡ 3
unfolding flowkernel.Reactor.Live.live_turn flowkernel.Reactor.Live.proceed
    flowkernel.Reactor.Live.begin_cycle flowkernel.Reactor.Live.queue_round
    flowkernel.Reactor.Live.slot_round start register_handler new_reactor arm_poll_eventfd
    fnv1a_hash fnv_from fnv_round lookup emplace data_callback route track_session robot_id find see
    flowkernel.Cache.get_slot_fast flowkernel.Cache.put_latest flowkernel.Cache.write_slot
    flowkernel.Cache.pre_allocate flowkernel.Reactor.Run.pre_allocate_all
    flowkernel.Reactor.Run.pre_allocate_for flowkernel.Mpsc.pop flowkernel.Mpsc.new_queue
three_come = refl
