-- ===== src/Reactor/Cycle.antt =====
-- `handle_events` as a whole: what it calls, what it leaves, and what it counts.
use flowkernel.Base.{ℕ, ◌≡◌, refl, sym, ap, subst, ◌∙◌, [], ◌++◌, true, false}
use flowkernel.Mpsc.Fifo.{Fifo}
use flowkernel.Mpsc.Represents.{Represents}
use flowkernel.Cache.{LatestSampleCache, get_total_dropped}
use flowkernel.Cache.Map.{samples, AllEmpty, drain_lem}
use flowkernel.Cache.Dropped.{get_total_dropped-drain}
use flowkernel.Platform.{Platform}
use flowkernel.Reactor.{CriticalSample, Reactor, queue_capacity, arm_poll_eventfd}
use flowkernel.Reactor.Events.{
  Cycle, Drained, Wait, completed, timed_out, queue_phase, background_phase, consume_background,
  await, handle_events,
}
use flowkernel.Reactor.Handlers.{IsIndexed}
use flowkernel.Reactor.Dispatch.{holding, queue-dispatch_all, drain_queue_lem}
use flowkernel.Reactor.Calls.{queue_calls, slot_calls, trace-dispatch_all, trace-consume_all}

module _ {p : Platform} where
  -- The wait changes the eventfd and the poll, and nothing else.
  pub await_keeps :
      (w : Wait) (r : Reactor p)
      → ((await w r).critical_queue ≡ r.critical_queue)
        × ((await w r).background_cache ≡ r.background_cache)
        × ((await w r).counters ≡ r.counters)
        × ((await w r).handlers ≡ r.handlers)
        × ((await w r).handler_index ≡ r.handler_index)
        × ((await w r).running ≡ r.running)
  unfolding await arm_poll_eventfd
  await_keeps timed_out r = (refl, refl, refl, refl, refl, refl)
  await_keeps (completed user_data true) r = (refl, refl, refl, refl, refl, refl)
  await_keeps (completed user_data false) r = (refl, refl, refl, refl, refl, refl)

  -- The first phase empties the queue and calls the handlers of its frames.
  pub queue_phase_lem :
      (clock : ℕ → ℕ) (r : Reactor p) {f : Fifo CriticalSample}
      → Represents 9 r.critical_queue f
      → IsIndexed r.handlers r.handler_index
      → Represents 9 (queue_phase clock r).queue (holding [] f.lost)
        × ((queue_phase clock r).trace ≡ queue_calls r.handler_index f.items)
  unfolding queue_phase
  queue_phase_lem clock r {f} held ok =
      let begin : Cycle p.Micros = record {
        queue = r.critical_queue;
        latencies = r.latencies;
        trace = [];
        critical_count = 0;
        normal_count = 0;
        reads = 0;
      } in
      let (q, left, same) =
        drain_queue_lem p.micros_between clock r.handlers r.handler_index f.items queue_capacity
          begin {lost = f.lost} held held.room in
      let start : Cycle p.Micros = record begin { queue = q } in
      let emptied =
        queue-dispatch_all p.micros_between clock r.handlers r.handler_index f.items start in
      let calls =
        trace-dispatch_all p.micros_between clock r.handlers r.handler_index ok f.items start in
      (
        subst (λ t. Represents 9 t (holding [] f.lost))
            (sym (ap (λ (t : Cycle p.Micros). t.queue) same ∙ emptied)) left,
        ap (λ (t : Cycle p.Micros). t.trace) same ∙ calls,
      )

  -- The second phase empties the slots and calls the handlers of their frames.
  pub background_phase_lem :
      (clock : ℕ → ℕ) (r : Reactor p) (cy : Cycle p.Micros)
      → IsIndexed r.handlers r.handler_index
      → let (d, cache) = background_phase clock r cy in
        (d.trace ≡ cy.trace ++ slot_calls r.handler_index (samples r.background_cache.slots))
        × AllEmpty cache.slots
        × (get_total_dropped cache ≡ get_total_dropped r.background_cache)
  unfolding background_phase
  background_phase_lem clock r cy ok =
      let consumer = consume_background p.micros_between clock r.handlers r.handler_index in
      let begin : Drained p.Micros = record {
        latencies = cy.latencies;
        trace = cy.trace;
        background_count = 0;
        reads = cy.reads;
      } in
      let (seen, emptied) = drain_lem consumer begin r.background_cache in
      (
        ap (λ (t : Drained p.Micros). t.trace) seen
            ∙ trace-consume_all p.micros_between clock r.handlers r.handler_index ok
                (samples r.background_cache.slots) begin,
        emptied,
        get_total_dropped-drain consumer begin r.background_cache,
      )

  -- One cycle of a reactor whose queue holds `f.items`: it calls the handler of each of these
  -- frames once, in the order in which they were enqueued, and only after all of them the handler
  -- of each frame that waits in a slot; a frame whose hash has no handler makes no call, and no
  -- read is out of range. Afterwards the queue holds nothing and every slot is empty.
  pub handle_events_calls :
      (clock : ℕ → ℕ) (w : Wait) (r : Reactor p) {f : Fifo CriticalSample}
      → Represents 9 r.critical_queue f
      → IsIndexed r.handlers r.handler_index
      → let (r', trace) = handle_events clock w r in
        (trace
          ≡ queue_calls r.handler_index f.items
            ++ slot_calls r.handler_index (samples r.background_cache.slots))
        × Represents 9 r'.critical_queue (holding [] f.lost)
        × AllEmpty r'.background_cache.slots
  unfolding handle_events
  handle_events_calls clock w r {f} held ok =
      let (emptied, first) = queue_phase_lem clock r held ok in
      let (all, drained, _) = background_phase_lem clock r (queue_phase clock r) ok in
      let kept = await_keeps w _ in
      (
        all ∙ ap (λ t. t ++ slot_calls r.handler_index (samples r.background_cache.slots)) first,
        subst (λ t. Represents 9 t (holding [] f.lost)) (sym kept.0) emptied,
        subst (λ (t : LatestSampleCache). AllEmpty t.slots) (sym kept.1) drained,
      )
