-- ===== src/Reactor/Rounds.antt =====
-- The rounds of the two loops of a cycle, with nothing between them, are the loops.
use flowkernel.Base.{
  ℕ, zero, suc, ◌+◌, ◌%◌, ◌^◌, ◌<◌, ◌≡◌, sym, ap, subst, ◌∙◌, List, [], ◌∷◌, none, length,
  replicate, set, arith,
}
use flowkernel.Mpsc.{Queue, empty, item, pop}
use flowkernel.Mpsc.Represents.{Represents}
use flowkernel.Mpsc.Refine.{pop-empty, pop-item, Represents-popped}
use flowkernel.Platform.{Platform}
use flowkernel.Reactor.{CriticalSample, Reactor, queue_capacity}
use flowkernel.Reactor.Events.{Cycle, dispatch, drain_queue, count_cycle}
use flowkernel.Reactor.Dispatch.{holding, queue-dispatch, after_pop, drain_queue-suc}
use flowkernel.Reactor.Live.{
  emptying, visiting, Live, proceeds, queue_round, proceed, live_turn, live,
}

module _ {p : Platform} (clock : ℕ → ℕ) (r : Reactor p) where
  -- In the loop over the queue, with the reactor up to date with the cycle.
  abbrev pub in_queue : Cycle p.Micros → Live p
  in_queue cy = record {
    reactor = record r { critical_queue = cy.queue; latencies = cy.latencies };
    phase = emptying cy;
    queue_log = cy.trace;
    slot_log = [];
  }

  abbrev pub after_queue : Cycle p.Micros → Live p
  after_queue cy = record {
    reactor = record r {
      critical_queue = cy.queue;
      latencies = cy.latencies;
      counters = count_cycle cy.critical_count cy.normal_count r.counters;
    };
    phase =
        visiting 0
          (record { latencies = cy.latencies; trace = []; background_count = 0; reads = cy.reads });
    queue_log = cy.trace;
    slot_log = [];
  }

  abbrev dispatched : CriticalSample → Queue CriticalSample → Cycle p.Micros → Cycle p.Micros
  dispatched cs q cy =
      dispatch p.micros_between clock r.handlers r.handler_index cs (record cy { queue = q })

  item_round :
      (cs : CriticalSample) (q : Queue CriticalSample) (cy : Cycle p.Micros)
      → pop queue_capacity cy.queue ≡ (item cs, q)
      → proceed clock (emptying cy) (in_queue cy) ≡ in_queue (dispatched cs q cy)
  unfolding proceed queue_round
  item_round cs q cy e = rw e (
      ap
        (λ t. record {
          reactor = record r { critical_queue = t; latencies = (dispatched cs q cy).latencies };
          phase = emptying (dispatched cs q cy);
          queue_log = (dispatched cs q cy).trace;
          slot_log = [];
        })
        (sym (
          queue-dispatch p.micros_between clock r.handlers r.handler_index cs
            (record cy { queue = q }))))

  empty_round :
      (cy : Cycle p.Micros)
      → pop queue_capacity cy.queue ≡ (empty, cy.queue)
      → proceed clock (emptying cy) (in_queue cy) ≡ after_queue cy
  unfolding proceed queue_round
  empty_round cy e = rw e

  -- As many rounds as there are frames, and one that finds the queue empty.
  pub queue_rounds :
      (items : List CriticalSample) (fuel : ℕ) (cy : Cycle p.Micros) {lost : ℕ}
      → Represents 9 cy.queue (holding items lost)
      → length items < fuel
      → live (replicate (suc (length items)) (proceeds clock)) (in_queue cy)
        ≡ after_queue (drain_queue p.micros_between clock r.handlers r.handler_index fuel cy)
  unfolding live live_turn
  queue_rounds items zero cy held h = absurd (omega arith)
  queue_rounds [] (suc fuel) cy held h =
      empty_round cy (pop-empty held)
      ∙ sym (
          ap after_queue (
            drain_queue-suc p.micros_between clock r.handlers r.handler_index fuel cy
            ∙ ap (after_pop p.micros_between clock r.handlers r.handler_index fuel cy)
                (pop-empty held)))
  queue_rounds (cs ∷ rest) (suc fuel) cy {lost} held h =
      let q : Queue CriticalSample = record cy.queue {
        buffer = set cy.queue.buffer cy.queue.head none;
        head = (cy.queue.head + 1) % 2 ^ 9;
      } in
      let held' =
        subst (λ t. Represents 9 t (holding rest lost))
          (sym (
            queue-dispatch p.micros_between clock r.handlers r.handler_index cs
              (record cy { queue = q })))
          (Represents-popped held) in
      ap (live (replicate (suc (length rest)) (proceeds clock)))
        (item_round cs q cy (pop-item held))
      ∙ queue_rounds rest fuel (dispatched cs q cy) {lost = lost} held' (omega arith)
      ∙ sym (
          ap after_queue (
            drain_queue-suc p.micros_between clock r.handlers r.handler_index fuel cy
            ∙ ap (after_pop p.micros_between clock r.handlers r.handler_index fuel cy)
                (pop-item held)))
