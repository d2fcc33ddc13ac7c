-- ===== src/Reactor/Tallied.antt =====
-- The counts of processed frames against the calls that were made, at any moment of a cycle and
-- with resets by other threads.
use flowkernel.Base.{
  ℕ, ◌%◌, ◌^◌, ◌≡◌, refl, sym, subst, subst₂, List, [], ◌∷◌, Option, none, some, true, false, arith,
  add64, sub64, if◌then◌else◌,
}
use flowkernel.Base.Assoc.{lookup}
use flowkernel.Mpsc.{Popped, empty, item, fault, Queue, dropped_count}
use flowkernel.Cache.{LatestSampleSlot, take}
use flowkernel.Platform.{Platform}
use flowkernel.Reactor.{CriticalSample, Handler, Counters, Reactor, stop}
use flowkernel.Reactor.Events.{
  Event, bad_slot, Cycle, Drained, Wait, dispatch, count_cycle, count_background,
}
use flowkernel.Reactor.Stats.{reset_stats}
use flowkernel.Reactor.Counts.{one_critical, one_other, one_any, processed-sync_dropped}
use flowkernel.Reactor.Unseen.{data_callback_unseen}
use flowkernel.Reactor.Arrivals.{keeps_handlers}
use flowkernel.Reactor.Cycle.{await_keeps}
use flowkernel.Reactor.Tally.{calls_weighed, calls_weighed-snoc, dispatch_to-Level, consume-Level}
use flowkernel.Reactor.Live.{
  LivePhase, resting, emptying, visiting, waiting, Live, LiveTurn, arrives, proceeds, wakes, halts,
  resets_all, begin_cycle, queue_round, slot_round, proceed, wake_up, live_turn, live,
}

module _ {L : Type 0} where
  -- What the cycle in progress has counted and not added to the statistics yet.
  abbrev pub critical_pending : LivePhase L → ℕ
  critical_pending (emptying cy) = cy.critical_count
  critical_pending _ = 0

  abbrev pub normal_pending : LivePhase L → ℕ
  normal_pending (emptying cy) = cy.normal_count
  normal_pending _ = 0

  abbrev pub background_pending : LivePhase L → ℕ
  background_pending (visiting n d) = d.background_count
  background_pending _ = 0

-- The calls that the statistics leave out: those of before the last reset.
pub record Uncounted : Type 0 where
  pub criticals : ℕ
  pub others : ℕ
  pub backgrounds : ℕ

module _ {L : Type 0} where
  pub record Tallied (u : Uncounted) (hs : List Handler) (c : Counters) (phase : LivePhase L)
      (queue_log slot_log : List Event) : Type 0 where
    pub criticals :
        add64 (add64 c.critical_processed (critical_pending phase)) u.criticals
        ≡ calls_weighed one_critical hs queue_log % 2 ^ 64
    pub others :
        add64 (add64 c.normal_processed (normal_pending phase)) u.others
        ≡ calls_weighed one_other hs queue_log % 2 ^ 64
    pub backgrounds :
        add64 (add64 c.background_processed (background_pending phase)) u.backgrounds
        ≡ calls_weighed one_any hs slot_log % 2 ^ 64

module _ {p : Platform} where
  abbrev pub IsTallied : Uncounted → Live p → Type 0
  IsTallied u m = Tallied u m.reactor.handlers m.reactor.counters m.phase m.queue_log m.slot_log

  -- A reset leaves out all calls made, but for those of the cycle in progress, which it still adds.
  abbrev pub uncounted_after : LiveTurn → Live p → Uncounted → Uncounted
  uncounted_after resets_all m u =
      let hs = m.reactor.handlers in
      record {
        criticals =
            sub64 (calls_weighed one_critical hs m.queue_log) (critical_pending m.phase % 2 ^ 64);
        others = sub64 (calls_weighed one_other hs m.queue_log) (normal_pending m.phase % 2 ^ 64);
        backgrounds =
            sub64 (calls_weighed one_any hs m.slot_log) (background_pending m.phase % 2 ^ 64);
      }
  uncounted_after _ m u = u

  abbrev pub uncounted : List LiveTurn → Live p → Uncounted → Uncounted
  uncounted [] m u = u
  uncounted (t ∷ turns) m u = uncounted turns (live_turn t m) (uncounted_after t m u)

module _ {p : Platform} (u : Uncounted) where
  at_phase :
      {phase : LivePhase p.Micros} (m : Live p)
      → m.phase ≡ phase
      → IsTallied u m
      → Tallied u m.reactor.handlers m.reactor.counters phase m.queue_log m.slot_log
  at_phase m at t =
      subst (λ t. Tallied u m.reactor.handlers m.reactor.counters t m.queue_log m.slot_log) at t

  queue_round-IsTallied :
      (clock : ℕ → ℕ) (x : Popped CriticalSample) (q : Queue CriticalSample) (cy : Cycle p.Micros)
      (m : Live p)
      → m.phase ≡ emptying cy
      → IsTallied u m
      → IsTallied u (queue_round clock x q cy m)
  unfolding queue_round count_cycle dispatch
  queue_round-IsTallied clock empty q cy m at t =
      let t' = at_phase m at t in
      record {
        criticals = omega (arith, t'.criticals);
        others = omega (arith, t'.others);
        backgrounds = omega (arith, t'.backgrounds);
      }
  queue_round-IsTallied clock fault q cy m at t =
      let hs = m.reactor.handlers in
      let c = calls_weighed-snoc one_critical hs m.queue_log bad_slot in
      let n = calls_weighed-snoc one_other hs m.queue_log bad_slot in
      record {
        criticals = omega (arith, t.criticals, c);
        others = omega (arith, t.others, n);
        backgrounds = t.backgrounds;
      }
  queue_round-IsTallied clock (item cs) q cy m at t =
      let r = m.reactor in
      let level =
        dispatch_to-Level p.micros_between clock r.handlers r.handler_index
          (lookup cs.handler_hash r.handler_index) cs
          (record cy { queue = q; latencies = r.latencies; trace = m.queue_log }) in
      let t' = at_phase m at t in
      record {
        criticals = omega (arith, t'.criticals, level.criticals);
        others = omega (arith, t'.others, level.others);
        backgrounds = omega (arith, t'.backgrounds);
      }

  slot_round-IsTallied :
      (clock : ℕ → ℕ) (entry : Option (ℕ × LatestSampleSlot)) (n : ℕ) (d : Drained p.Micros)
      (m : Live p)
      → m.phase ≡ visiting n d
      → IsTallied u m
      → IsTallied u (slot_round clock entry n d m)
  unfolding slot_round count_background
  slot_round-IsTallied clock none n d m at t =
      let t' = at_phase m at t in
      record {
        criticals = omega (arith, t'.criticals);
        others = omega (arith, t'.others);
        backgrounds = omega (arith, t'.backgrounds);
      }
  slot_round-IsTallied clock (some (j, s)) n d m at t =
      let r = m.reactor in
      let t' = at_phase m at t in
      let level =
        consume-Level p.micros_between clock r.handlers r.handler_index (take s).0
          (record d { latencies = r.latencies; trace = m.slot_log }) in
      record {
        criticals = omega (arith, t'.criticals);
        others = omega (arith, t'.others);
        backgrounds = omega (arith, t'.backgrounds, level);
      }

  proceed-IsTallied :
      (clock : ℕ → ℕ) (phase : LivePhase p.Micros) (m : Live p)
      → m.phase ≡ phase
      → IsTallied u m
      → IsTallied u (proceed clock phase m)
  unfolding proceed begin_cycle
  proceed-IsTallied clock resting m at t =
      elim m.reactor.running as (λ b. IsTallied u (if b then begin_cycle m else m)) [
        | true ↦
            let c = m.reactor.counters in
            let (pc, pn, pb) = processed-sync_dropped (dropped_count m.reactor.critical_queue) c in
            let t' = at_phase m at t in
            record {
              criticals = omega (arith, t'.criticals, pc);
              others = omega (arith, t'.others, pn);
              backgrounds = omega (arith, t'.backgrounds, pb);
            }
        | false ↦ t
      ]
  proceed-IsTallied clock (emptying cy) m at t = queue_round-IsTallied clock _ _ cy m at t
  proceed-IsTallied clock (visiting n d) m at t = slot_round-IsTallied clock _ n d m at t
  proceed-IsTallied clock waiting m at t = t

  wake_up-IsTallied :
      (w : Wait) (phase : LivePhase p.Micros) (m : Live p)
      → m.phase ≡ phase
      → IsTallied u m
      → IsTallied u (wake_up w phase m)
  unfolding wake_up
  wake_up-IsTallied w waiting m at t =
      let (_, _, c, h, _, _) = await_keeps w m.reactor in
      let t' = at_phase m at t in
      subst₂ (λ hs cs. Tallied {L = p.Micros} u hs cs resting m.queue_log m.slot_log) (sym h)
        (sym c)
        (record {
          criticals = omega (arith, t'.criticals);
          others = omega (arith, t'.others);
          backgrounds = omega (arith, t'.backgrounds);
        })
  wake_up-IsTallied w resting m at t = t
  wake_up-IsTallied w (emptying cy) m at t = t
  wake_up-IsTallied w (visiting n d) m at t = t

module _ {p : Platform} where
  reset_stats-IsTallied :
      (u : Uncounted) (m : Live p)
      → IsTallied (uncounted_after resets_all m u) (live_turn resets_all m)
  unfolding live_turn reset_stats
  reset_stats-IsTallied u m = record {
    criticals = omega arith;
    others = omega arith;
    backgrounds = omega arith;
  }

  live_turn-IsTallied :
      (u : Uncounted) (t : LiveTurn) (m : Live p)
      → IsTallied u m
      → IsTallied (uncounted_after t m u) (live_turn t m)
  unfolding live_turn stop
  live_turn-IsTallied u (arrives ctx key raw now_ms now) m t =
      let kept =
        data_callback_unseen (λ (r : Reactor p). r.counters)
          (record {
            of_queue = λ r q. refl;
            of_wakeup = λ r e. refl;
            of_cache = λ r c. refl;
            of_sessions = λ r s. refl;
          })
          ctx key raw now_ms now m.reactor in
      subst₂ (λ hs c. Tallied u hs c m.phase m.queue_log m.slot_log)
        (sym (keeps_handlers ctx key raw now_ms now m.reactor)) (sym kept) t
  live_turn-IsTallied u (proceeds clock) m t = proceed-IsTallied u clock m.phase m refl t
  live_turn-IsTallied u (wakes w) m t = wake_up-IsTallied u w m.phase m refl t
  live_turn-IsTallied u halts m t = t
  live_turn-IsTallied u resets_all m t = reset_stats-IsTallied u m

  -- If the following holds at the start, it holds after any turns, whatever arrives, however far
  -- the thread of the event loop goes, and whoever stops the reactor or resets its statistics, in
  -- the middle of a cycle too: the frames reported as processed, with those that the cycle in
  -- progress has counted, are, modulo 2 ^ 64, the calls made of handlers beyond those that are left
  -- out, each under the priority of its handler: CRITICAL, any other for the frames of the queue,
  -- and any for those of the slots. Left out are those left out at the start and, from a reset on,
  -- all calls before it but for those of the cycle then in progress.
  pub live-IsTallied :
      (turns : List LiveTurn) (m : Live p) (u : Uncounted)
      → IsTallied u m
      → IsTallied (uncounted turns m u) (live turns m)
  unfolding live
  live-IsTallied [] m u t = t
  live-IsTallied (turn ∷ turns) m u t =
      live-IsTallied turns (live_turn turn m) (uncounted_after turn m u)
        (live_turn-IsTallied u turn m t)
