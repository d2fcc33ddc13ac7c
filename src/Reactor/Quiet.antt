-- ===== src/Reactor/Quiet.antt =====
-- A cycle of `handle_events` of src/reactor.cpp that nothing interrupts, round by round: what it
-- calls, counts and reports.
use flowkernel.Base.{ℕ, ◌≡◌, sym, subst₂, List, [], ◌++◌, true, add64, length}
use flowkernel.Mpsc.{dropped_count}
use flowkernel.Mpsc.Fifo.{Fifo}
use flowkernel.Mpsc.Represents.{Represents}
use flowkernel.Cache.{get_total_dropped}
use flowkernel.Cache.Map.{AllEmpty, samples}
use flowkernel.Platform.{Platform}
use flowkernel.Reactor.{CriticalSample, Reactor}
use flowkernel.Reactor.Events.{Event, Wait}
use flowkernel.Reactor.Calls.{queue_calls, slot_calls}
use flowkernel.Reactor.Counts.{
  weigh, one_critical, one_other, one_any, handler_for, frame_hashes, sample_hashes,
  handle_events_processed,
}
use flowkernel.Reactor.Cycle.{handle_events_calls}
use flowkernel.Reactor.Dispatch.{holding}
use flowkernel.Reactor.Sound.{IsSound}
use flowkernel.Reactor.History.{handle_events_drops}
use flowkernel.Reactor.Alone.{whole_cycle, at_rest, whole_cycle_lem}
use flowkernel.Reactor.Live.{resting, live}

module _ {p : Platform} where
  -- What a whole cycle from `r`, with `f` in its queue, leaves and has called.
  abbrev pub Cycled :
      Reactor p → Fifo CriticalSample → (queue_base bg_base : ℕ) → Reactor p → List Event → Type 0
  Cycled r f queue_base bg_base r' log =
      let c = r.counters in
      let c' = r'.counters in
      let h = handler_for r.handlers r.handler_index in
      (log
        ≡ queue_calls r.handler_index f.items
          ++ slot_calls r.handler_index (samples r.background_cache.slots))
      × Represents 9 r'.critical_queue (holding [] f.lost)
      × AllEmpty r'.background_cache.slots
      × (c'.critical_processed
          ≡ add64 c.critical_processed (weigh one_critical h (frame_hashes f.items)))
      × (c'.normal_processed ≡ add64 c.normal_processed (weigh one_other h (frame_hashes f.items)))
      × (c'.background_processed
          ≡ add64 c.background_processed
              (weigh one_any h (sample_hashes (samples r.background_cache.slots))))
      × (add64 (add64 c'.critical_dropped c'.normal_dropped) queue_base
          ≡ dropped_count r.critical_queue)
      × (add64 c'.background_dropped bg_base ≡ get_total_dropped r.background_cache)

  -- A running reactor in a sound state, with the frames `f.items` in its queue, goes without
  -- interruption through one round per frame and one per slot, and three more, and wakes up. Then it
  -- is before its next cycle; it has called the handler of each frame of the queue, in their order,
  -- and then that of each frame in a slot; the queue and the slots are empty; CRITICAL has counted
  -- the frames of the queue whose handler has that priority, NORMAL the others that have a handler,
  -- BACKGROUND the frames of the slots that have one, modulo 2 ^ 64; and the drops reported are,
  -- with the bases and modulo 2 ^ 64, all that the queue and the cache had counted.
  pub quiet_cycle :
      (clock : ℕ → ℕ) (w : Wait) (r : Reactor p) (f : Fifo CriticalSample) (queue_base bg_base : ℕ)
      → Represents 9 r.critical_queue f
      → r.running ≡ true
      → IsSound queue_base bg_base r
      → let m =
          live
            (whole_cycle clock (length f.items) (length r.background_cache.slots) w)
            (at_rest r) in
        Cycled r f queue_base bg_base m.reactor (m.queue_log ++ m.slot_log) × (m.phase ≡ resting)
  quiet_cycle clock w r f queue_base bg_base held on s =
      let (same, called, rests) = whole_cycle_lem clock w r held on in
      let (calls, emptied, empty) = handle_events_calls clock w r held s.indexed in
      let (criticals, others, any) = handle_events_processed clock w r held in
      let (queue_side, bg_side) = handle_events_drops clock w r queue_base bg_base s in
      (
        subst₂ (Cycled r f queue_base bg_base) (sym same) (sym called)
            (calls, emptied, empty, criticals, others, any, queue_side, bg_side),
        rests,
      )
