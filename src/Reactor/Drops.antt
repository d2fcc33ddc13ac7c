-- ===== src/Reactor/Drops.antt =====
-- The drops that the reactor reports, with samples, stops and resets between the rounds of a cycle.
use flowkernel.Base.{
  ℕ, ◌^◌, ◌<◌, refl, List, [], ◌∷◌, Option, none, some, true, false, arith, if◌then◌else◌,
}
use flowkernel.Mpsc.{dropped_count}
use flowkernel.Mpsc.Represents.{Represents}
use flowkernel.Mpsc.Refine.{pop-empty, pop-item, Represents-popped}
use flowkernel.Cache.{LatestSampleSlot, get_total_dropped}
use flowkernel.Cache.Dropped.{get_total_dropped_lt}
use flowkernel.Platform.{Platform}
use flowkernel.Reactor.{CriticalSample, stop}
use flowkernel.Reactor.Events.{Cycle, Drained, Wait}
use flowkernel.Reactor.Accounting.{
  sync_dropped-IsAccounted, count_cycle-IsAccounted, count_background-IsAccounted,
}
use flowkernel.Reactor.Cycle.{await_keeps}
use flowkernel.Reactor.Dispatch.{holding}
use flowkernel.Reactor.Sound.{IsSound, IsSound-kept, data_callback-IsSound}
use flowkernel.Reactor.History.{reset_stats-IsSound}
use flowkernel.Reactor.Live.{
  LivePhase, resting, emptying, visiting, waiting, Live, LiveTurn, arrives, proceeds, wakes, halts,
  resets_all, begin_cycle, queue_round, slot_round, proceed, wake_up, live_turn, live,
}

module _ {p : Platform} where
  -- What the queue and the cache had counted when the statistics were last reset.
  abbrev pub bases_after : LiveTurn → Live p → ℕ × ℕ → ℕ × ℕ
  bases_after resets_all m b =
      (dropped_count m.reactor.critical_queue, get_total_dropped m.reactor.background_cache)
  bases_after _ m b = b

  abbrev pub bases : List LiveTurn → Live p → ℕ × ℕ → ℕ × ℕ
  bases [] m b = b
  bases (t ∷ turns) m b = bases turns (live_turn t m) (bases_after t m b)

  abbrev Sound : ℕ → ℕ → Live p → Type 0
  Sound queue_base bg_base m = IsSound queue_base bg_base m.reactor

module _ {p : Platform} {queue_base bg_base : ℕ} where
  begin_cycle-IsSound :
      (m : Live p) → Sound queue_base bg_base m → Sound queue_base bg_base (begin_cycle m)
  unfolding begin_cycle dropped_count
  begin_cycle-IsSound m s =
      let q = m.reactor.critical_queue in
      record {
        frames = s.frames;
        held = s.held;
        narrow = s.narrow;
        indexed = s.indexed;
        accounted =
            (sync_dropped-IsAccounted q.dropped queue_base bg_base m.reactor.counters
              (omega (arith, s.held.lost, s.narrow)) s.accounted).0;
      }

  queue_round-IsSound :
      (clock : ℕ → ℕ) (cy : Cycle p.Micros) (m : Live p) (items : List CriticalSample) {lost : ℕ}
      → Represents 9 m.reactor.critical_queue (holding items lost)
      → lost < 2 ^ 64
      → Sound queue_base bg_base m
      → Sound queue_base bg_base (proceed clock (emptying cy) m)
  unfolding proceed queue_round
  queue_round-IsSound clock cy m [] held narrow s = rw (pop-empty held) (record {
    frames = s.frames;
    held = s.held;
    narrow = s.narrow;
    indexed = s.indexed;
    accounted =
        count_cycle-IsAccounted cy.critical_count cy.normal_count queue_base bg_base
          m.reactor.counters s.accounted;
  })
  queue_round-IsSound clock cy m (x ∷ items) {lost} held narrow s = rw (pop-item held) (record {
    frames = holding items lost;
    held = Represents-popped held;
    narrow = narrow;
    indexed = s.indexed;
    accounted = s.accounted;
  })

  slot_round-IsSound :
      (clock : ℕ → ℕ) (entry : Option (ℕ × LatestSampleSlot)) (n : ℕ) (d : Drained p.Micros)
      (m : Live p)
      → Sound queue_base bg_base m
      → Sound queue_base bg_base (slot_round clock entry n d m)
  unfolding slot_round
  slot_round-IsSound clock none n d m s = record {
    frames = s.frames;
    held = s.held;
    narrow = s.narrow;
    indexed = s.indexed;
    accounted =
        count_background-IsAccounted d.background_count
          (get_total_dropped m.reactor.background_cache) queue_base bg_base m.reactor.counters
          (get_total_dropped_lt m.reactor.background_cache) s.accounted;
  }
  slot_round-IsSound clock (some (j, x)) n d m s = IsSound-kept s refl refl refl refl

  proceed-IsSound :
      (clock : ℕ → ℕ) (phase : LivePhase p.Micros) (m : Live p)
      → Sound queue_base bg_base m
      → Sound queue_base bg_base (proceed clock phase m)
  unfolding proceed
  proceed-IsSound clock resting m s =
      elim m.reactor.running as (λ b. Sound queue_base bg_base (if b then begin_cycle m else m)) [
        | true ↦ begin_cycle-IsSound m s
        | false ↦ s
      ]
  proceed-IsSound clock (emptying cy) m s =
      queue_round-IsSound clock cy m s.frames.items s.held s.narrow s
  proceed-IsSound clock (visiting n d) m s = slot_round-IsSound clock _ n d m s
  proceed-IsSound clock waiting m s = s

  wake_up-IsSound :
      (w : Wait) (phase : LivePhase p.Micros) (m : Live p)
      → Sound queue_base bg_base m
      → Sound queue_base bg_base (wake_up w phase m)
  unfolding wake_up
  wake_up-IsSound w waiting m s =
      let (q, _, c, h, i, _) = await_keeps w m.reactor in IsSound-kept s q c h i
  wake_up-IsSound w resting m s = s
  wake_up-IsSound w (emptying cy) m s = s
  wake_up-IsSound w (visiting n d) m s = s

module _ {p : Platform} where
  live_turn-IsSound :
      (t : LiveTurn) (m : Live p) (b : ℕ × ℕ)
      → IsSound b.0 b.1 m.reactor
      → let b' = bases_after t m b in IsSound b'.0 b'.1 (live_turn t m).reactor
  unfolding live_turn stop
  live_turn-IsSound (arrives ctx key raw now_ms now) m b s =
      data_callback-IsSound ctx key raw now_ms now m.reactor s
  live_turn-IsSound (proceeds clock) m b s = proceed-IsSound clock m.phase m s
  live_turn-IsSound (wakes w) m b s = wake_up-IsSound w m.phase m s
  live_turn-IsSound halts m b s = IsSound-kept s refl refl refl refl
  live_turn-IsSound resets_all m b s = reset_stats-IsSound m.reactor s

  -- From a sound state, whatever samples arrive, however far the thread of the event loop goes, and
  -- whoever stops the reactor or resets its statistics between two rounds: the reactor stays sound.
  -- The look at the queue's drops is one step here; Reactor/ResetRace.antt is about resets within
  -- it. The ring stays in order, the index right, and the reported drops of CRITICAL and
  -- NORMAL together, and those of BACKGROUND, are, modulo 2 ^ 64, what the queue and the cache had
  -- counted at the last look at them beyond what they showed at the last reset.
  pub live-IsSound :
      (turns : List LiveTurn) (m : Live p) (b : ℕ × ℕ)
      → IsSound b.0 b.1 m.reactor
      → let b' = bases turns m b in IsSound b'.0 b'.1 (live turns m).reactor
  unfolding live
  live-IsSound [] m b s = s
  live-IsSound (t ∷ turns) m b s =
      live-IsSound turns (live_turn t m) (bases_after t m b) (live_turn-IsSound t m b s)
