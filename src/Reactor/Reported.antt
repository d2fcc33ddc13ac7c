-- ===== src/Reactor/Reported.antt =====
-- The statistics against the samples: what is reported as processed and as dropped, with what is
-- still to be reported, is all that was offered to the queue.
use flowkernel.Base.{
  ℕ, ◌+◌, ◌%◌, ◌^◌, ◌≡◌, refl, sym, ap, subst, List, [], ◌∷◌, arith, sub64, length, Bool, true,
  false,
}
use flowkernel.Hash.{Bytes}
use flowkernel.Mpsc.{dropped_count, new_queue}
use flowkernel.Mpsc.Fifo.{Fifo}
use flowkernel.Mpsc.Represents.{Represents}
use flowkernel.Mpsc.Refine.{no_items, new_queue-Represents}
use flowkernel.Platform.{Platform}
use flowkernel.Reactor.{
  TopicPriority, CriticalSample, Counters, Reactor, zero_counters, new_reactor, register_handler,
  arm_poll_eventfd,
}
use flowkernel.Reactor.Run.{start}
use flowkernel.Reactor.Handlers.{register_all}
use flowkernel.Reactor.Calls.{queue_calls}
use flowkernel.Reactor.Counts.{one_critical, one_other}
use flowkernel.Reactor.Sound.{IsSound}
use flowkernel.Reactor.Boot.{booted, booted-IsSound}
use flowkernel.Reactor.Alone.{at_rest}
use flowkernel.Reactor.Safe.{live-SlotsSafe}
use flowkernel.Reactor.Offered.{offered}
use flowkernel.Reactor.Conserved.{live_conserves}
use flowkernel.Reactor.Drops.{bases, live-IsSound}
use flowkernel.Reactor.Tally.{calls_weighed}
use flowkernel.Reactor.Tallied.{
  Uncounted, IsTallied, uncounted, critical_pending, normal_pending, live-IsTallied,
}
use flowkernel.Reactor.Live.{Live, LiveTurn, arrives, proceeds, wakes, halts, resets_all, live}
use flowkernel.Reactor.Totals.{
  NoResets, AllHandled, length-Shuffle, Shuffle-AllHandled, length-queue_calls, both-log,
}

abbrev pub none_uncounted : Uncounted
none_uncounted = record { criticals = 0; others = 0; backgrounds = 0 }

module _ {p : Platform} where
  -- What is new of a reactor before any sample came.
  pub record Fresh (r : Reactor p) : Type 0 where
    pub queue : r.critical_queue ≡ new_queue 512
    pub counters : r.counters ≡ zero_counters

  register_all-Fresh :
      (cfg : List (Bytes × TopicPriority)) (r : Reactor p) → Fresh r → Fresh (register_all cfg r)
  unfolding register_handler
  register_all-Fresh [] r f = f
  register_all-Fresh ((path, priority) ∷ cfg) r f =
      register_all-Fresh cfg (register_handler r path priority)
        (record { queue = f.queue; counters = f.counters })

  start-Fresh :
      (keyexpr_ok subscribed : Bytes → Bool) (liveliness_key : Bytes) (submitted : Bool)
      (r : Reactor p)
      → Fresh r
      → Fresh (start keyexpr_ok subscribed liveliness_key submitted r).2
  unfolding start arm_poll_eventfd
  start-Fresh keyexpr_ok subscribed liveliness_key true r f = record {
    queue = f.queue;
    counters = f.counters;
  }
  start-Fresh keyexpr_ok subscribed liveliness_key false r f = record {
    queue = f.queue;
    counters = f.counters;
  }

  pub uncounted-NoResets :
      (turns : List LiveTurn) (m : Live p) (u : Uncounted)
      → NoResets turns
      → uncounted turns m u ≡ u
  uncounted-NoResets [] m u h = refl
  uncounted-NoResets (arrives ctx key raw now_ms now ∷ turns) m u h = uncounted-NoResets turns _ u h
  uncounted-NoResets (proceeds clock ∷ turns) m u h = uncounted-NoResets turns _ u h
  uncounted-NoResets (wakes w ∷ turns) m u h = uncounted-NoResets turns _ u h
  uncounted-NoResets (halts ∷ turns) m u h = uncounted-NoResets turns _ u h
  uncounted-NoResets (resets_all ∷ turns) m u h = elim h [ ]

  pub bases-NoResets :
      (turns : List LiveTurn) (m : Live p) (b : ℕ × ℕ) → NoResets turns → bases turns m b ≡ b
  bases-NoResets [] m b h = refl
  bases-NoResets (arrives ctx key raw now_ms now ∷ turns) m b h = bases-NoResets turns _ b h
  bases-NoResets (proceeds clock ∷ turns) m b h = bases-NoResets turns _ b h
  bases-NoResets (wakes w ∷ turns) m b h = bases-NoResets turns _ b h
  bases-NoResets (halts ∷ turns) m b h = bases-NoResets turns _ b h
  bases-NoResets (resets_all ∷ turns) m b h = elim h [ ]

  -- What the statistics report of the queue, and what they will report of what has happened so far.
  abbrev pub reported : Live p → ℕ
  reported m =
      let c = m.reactor.counters in
      c.critical_processed + c.normal_processed + c.critical_dropped + c.normal_dropped

  abbrev pub unreported : Live p → ℕ
  unreported m =
      let c = m.reactor.counters in
      critical_pending m.phase
      + normal_pending m.phase
      + sub64 (dropped_count m.reactor.critical_queue) c.last_queue_dropped

  pub at_rest-IsTallied : (r : Reactor p) → Fresh r → IsTallied none_uncounted (at_rest r)
  at_rest-IsTallied r f =
      let c = ap (λ (t : Counters). t.critical_processed) f.counters in
      let n = ap (λ (t : Counters). t.normal_processed) f.counters in
      let b = ap (λ (t : Counters). t.background_processed) f.counters in
      record {
        criticals = omega (arith, c);
        others = omega (arith, n);
        backgrounds = omega (arith, b);
      }

module _ (p : Platform) (keyexpr_ok subscribed : Bytes → Bool) (liveliness_key : Bytes) where
  pub booted-Fresh :
      (cfg : List (Bytes × TopicPriority)) (submitted : Bool)
      → Fresh (booted p keyexpr_ok subscribed liveliness_key cfg submitted)
  unfolding new_reactor
  booted-Fresh cfg submitted =
      start-Fresh keyexpr_ok subscribed liveliness_key submitted (register_all cfg (new_reactor p))
        (register_all-Fresh cfg (new_reactor p) (record { queue = refl; counters = refl }))

  -- From the constructor through any registrations and the start of `run`, whatever samples arrive
  -- and however far the thread goes, as long as nobody resets the statistics and each frame that is
  -- offered to the queue is of a topic with a handler: at any moment, in the middle of a cycle too,
  -- the frames that are reported as processed and as dropped under CRITICAL and NORMAL, those that
  -- the cycle in progress has counted, the drops that the next cycle will find, and the calls that
  -- the frames in the queue will make are together, modulo 2 ^ 64, the number of valid samples that
  -- were offered. The statistics lose no sample and count none twice.
  pub every_sample_reported :
      (cfg : List (Bytes × TopicPriority)) (submitted : Bool) (turns : List LiveTurn)
      → NoResets turns
      → AllHandled
          (booted p keyexpr_ok subscribed liveliness_key cfg submitted).handler_index
          (offered p turns)
      → let r = booted p keyexpr_ok subscribed liveliness_key cfg submitted in
        let m = live turns (at_rest r) in
        (g : Fifo CriticalSample) × Represents 9 m.reactor.critical_queue g
        × ((reported m + unreported m + length (queue_calls r.handler_index g.items)) % 2 ^ 64
            ≡ length (offered p turns) % 2 ^ 64)
  unfolding dropped_count new_queue
  every_sample_reported cfg submitted turns no_resets handled =
      let r = booted p keyexpr_ok subscribed liveliness_key cfg submitted in
      let m = live turns (at_rest r) in
      let fresh = booted-Fresh cfg submitted in
      let start_sound = booted-IsSound p keyexpr_ok subscribed liveliness_key cfg submitted in
      let held =
        subst (λ q. Represents 9 q no_items) (sym fresh.queue)
          (new_queue-Represents {A = CriticalSample} 9 (omega arith)) in
      let (taken, dropped, g, shuffle, held', calls, drops) =
        live_conserves turns (at_rest r) held (omega arith) start_sound.indexed in
      let sound =
        subst (λ b. IsSound b.0 b.1 m.reactor) (bases-NoResets turns (at_rest r) (0, 0) no_resets)
          (live-IsSound turns (at_rest r) (0, 0) start_sound) in
      let tally =
        subst (λ u. IsTallied u m) (uncounted-NoResets turns (at_rest r) none_uncounted no_resets)
          (live-IsTallied turns (at_rest r) none_uncounted (at_rest-IsTallied r fresh)) in
      let (hs, _, _) =
        live-SlotsSafe r.handlers r.handler_index start_sound.indexed (λ _. Unit {0})
          (λ x log _. tt) turns (at_rest r) (refl, refl, tt) in
      let criticals = ap (λ t. calls_weighed one_critical t m.queue_log) hs in
      let others = ap (λ t. calls_weighed one_other t m.queue_log) hs in
      let counted =
        both-log r.handlers r.handler_index start_sound.indexed m.queue_log g.items taken calls in
      let none_yet = ap dropped_count fresh.queue in
      (
        g,
        held',
        omega (
          arith,
          tally.criticals,
          tally.others,
          sound.accounted.queue_side,
          criticals,
          others,
          counted,
          none_yet,
          drops,
          length-Shuffle shuffle,
          length-queue_calls r.handler_index taken
              (Shuffle-AllHandled r.handler_index shuffle handled),
        ),
      )
