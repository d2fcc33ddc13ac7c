-- ===== src/Reactor/Alone.antt =====
-- A cycle that nothing interrupts, round by round, is `handle_events` as one step.
use flowkernel.Base.{
  ℕ, suc, ◌≡◌, refl, sym, ap, ◌∙◌, List, [], ◌∷◌, ◌++◌, append-nil, length, replicate, true,
}
use flowkernel.Mpsc.{dropped_count}
use flowkernel.Mpsc.Fifo.{Fifo}
use flowkernel.Mpsc.Represents.{Represents}
use flowkernel.Cache.{LatestSampleSlot, drain, drain_slots, get_total_dropped}
use flowkernel.Platform.{Platform}
use flowkernel.Reactor.{CriticalSample, Reactor, queue_capacity}
use flowkernel.Reactor.Events.{
  Event, Cycle, Drained, Wait, sync_dropped, queue_phase, background_phase, consume_background,
  count_cycle, count_background, await, handle_events,
}
use flowkernel.Reactor.Live.{
  resting, Live, LiveTurn, proceeds, wakes, begin_cycle, proceed, wake_up, live_turn, live,
}
use flowkernel.Reactor.Rounds.{in_queue, queue_rounds}
use flowkernel.Reactor.Visits.{after_slots, visit_rounds, both_before, drain_slots_before}

-- The rounds of a cycle that finds `frames` frames and `slots` slots, and then the wake-up.
abbrev pub whole_cycle : (ℕ → ℕ) → ℕ → ℕ → Wait → List LiveTurn
whole_cycle clock frames slots w =
    proceeds clock
    ∷ (replicate (suc frames) (proceeds clock)
        ++ (replicate (suc slots) (proceeds clock) ++ wakes w ∷ []))

-- The state of the slots' consumer after the queue.
abbrev drained_from : {L : Type 0} → Cycle L → List Event → Drained L
drained_from cy trace = record {
  latencies = cy.latencies;
  trace = trace;
  background_count = 0;
  reads = cy.reads;
}

module _ {p : Platform} where
  live-append :
      (turns more : List LiveTurn) (m : Live p) → live (turns ++ more) m ≡ live more (live turns m)
  unfolding live
  live-append [] more m = refl
  live-append (t ∷ turns) more m = live-append turns more (live_turn t m)

  -- A reactor before a cycle, with nothing called yet.
  abbrev pub at_rest : Reactor p → Live p
  at_rest r = record { reactor = r; phase = resting; queue_log = []; slot_log = [] }

  abbrev synced : Reactor p → Reactor p
  synced r = record r { counters = sync_dropped (dropped_count r.critical_queue) r.counters }

  abbrev empty_cycle : Reactor p → Cycle p.Micros
  empty_cycle r = record {
    queue = r.critical_queue;
    latencies = r.latencies;
    trace = [];
    critical_count = 0;
    normal_count = 0;
    reads = 0;
  }

  begun :
      (clock : ℕ → ℕ) (r : Reactor p)
      → r.running ≡ true
      → live_turn (proceeds clock) (at_rest r) ≡ in_queue clock (synced r) (empty_cycle r)
  unfolding live_turn proceed begin_cycle
  begun clock r on = rw on

  abbrev visits :
      (ℕ → ℕ) → Reactor p → Drained p.Micros → Drained p.Micros × List (ℕ × LatestSampleSlot)
  visits clock r d =
      drain_slots (consume_background p.micros_between clock r.handlers r.handler_index) d
        r.background_cache.slots

  abbrev counted : Reactor p → Cycle p.Micros → Reactor p
  counted r cy = record (synced r) {
    critical_queue = cy.queue;
    latencies = cy.latencies;
    counters = count_cycle cy.critical_count cy.normal_count (synced r).counters;
  }

  -- What `handle_events` makes of the end of its last loop.
  abbrev ended :
      Wait
      → Reactor p
      → Cycle p.Micros
      → Drained p.Micros × List (ℕ × LatestSampleSlot)
      → Reactor p × List Event
  ended w r cy (d, slots) = (
    await w (record (counted r cy) {
      counters =
          count_background d.background_count (get_total_dropped (record { slots = slots }))
            (counted r cy).counters;
      latencies = d.latencies;
      background_cache = record { slots = slots };
    }),
    d.trace,
  )

  handle_events-ended :
      (clock : ℕ → ℕ) (w : Wait) (r : Reactor p)
      → let cy = queue_phase clock r in
        handle_events clock w r
        ≡ ended w r cy (both_before cy.trace (visits clock r (drained_from cy [])))
  unfolding handle_events background_phase drain
  handle_events-ended clock w r =
      let cy = queue_phase clock r in
      ap (λ trace. ended w r cy (visits clock r (drained_from cy trace)))
        (sym (append-nil cy.trace))
      ∙ ap (ended w r cy) (
          drain_slots_before p.micros_between clock r.handlers r.handler_index cy.trace
            r.background_cache.slots (drained_from cy []))

  woken :
      (clock : ℕ → ℕ) (w : Wait) (r : Reactor p) {f : Fifo CriticalSample}
      → Represents 9 r.critical_queue f
      → r.running ≡ true
      → let cy = queue_phase clock r in
        live (whole_cycle clock (length f.items) (length r.background_cache.slots) w) (at_rest r)
        ≡ live_turn
            (wakes w)
            (after_slots clock (counted r cy) cy.trace (visits clock r (drained_from cy [])))
  unfolding live queue_phase
  woken clock w r {f} held on =
      let cy = queue_phase clock r in
      let visit = replicate (suc (length r.background_cache.slots)) (proceeds clock) in
      ap (live (replicate (suc (length f.items)) (proceeds clock) ++ (visit ++ wakes w ∷ [])))
        (begun clock r on)
      ∙ live-append (replicate (suc (length f.items)) (proceeds clock)) (visit ++ wakes w ∷ []) _
      ∙ ap (live (visit ++ wakes w ∷ [])) (
          queue_rounds clock (synced r) f.items queue_capacity (empty_cycle r) {lost = f.lost} held
            held.room)
      ∙ live-append visit (wakes w ∷ []) _
      ∙ ap (live (wakes w ∷ []))
          (visit_rounds clock (counted r cy) cy.trace r.background_cache.slots (drained_from cy []))

  -- A running reactor with its queue in order that goes through one round per frame of its queue
  -- and one per slot, and three more, and wakes up, is in the state that `handle_events` gives,
  -- before its next cycle, and has made the same calls in the same order.
  pub whole_cycle_lem :
      (clock : ℕ → ℕ) (w : Wait) (r : Reactor p) {f : Fifo CriticalSample}
      → Represents 9 r.critical_queue f
      → r.running ≡ true
      → let m =
          live
            (whole_cycle clock (length f.items) (length r.background_cache.slots) w)
            (at_rest r) in
        (m.reactor ≡ (handle_events clock w r).0)
        × (m.queue_log ++ m.slot_log ≡ (handle_events clock w r).1)
        × (m.phase ≡ resting)
  unfolding live_turn wake_up
  whole_cycle_lem clock w r {f} held on =
      let cy = queue_phase clock r in
      let end = woken clock w r held on in
      let same = sym (handle_events-ended clock w r) in
      (
        ap (λ m. m.reactor) end ∙ ap (λ t. t.0) same,
        ap (λ m. m.queue_log ++ m.slot_log) end ∙ ap (λ t. t.1) same,
        ap (λ m. m.phase) end,
      )
