-- ===== src/Reactor/History.antt =====
-- The reactor over whole histories: the invariant, and what the reported drops add up to.
use flowkernel.Base.{ℕ, ◌^◌, ◌<◌, ◌≡◌, ◌≢◌, ap, ◌∙◌, List, [], ◌∷◌, arith, add64}
use flowkernel.Mpsc.{dropped_count}
use flowkernel.Cache.{get_total_dropped}
use flowkernel.Cache.Dropped.{get_total_dropped_lt}
use flowkernel.Platform.{Platform}
use flowkernel.Reactor.{Counters, Reactor}
use flowkernel.Reactor.Events.{Wait, count_cycle, queue_phase, count_background, handle_events}
use flowkernel.Reactor.Stats.{reset_stats}
use flowkernel.Reactor.Run.{Action, resets, act, history}
use flowkernel.Reactor.Accounting.{sync_dropped-IsAccounted}
use flowkernel.Reactor.Cycle.{await_keeps, background_phase_lem}
use flowkernel.Reactor.Sound.{IsSound, act-IsSound, handle_events-IsSound}

abbrev pub NoResets : List Action → Type 0
NoResets [] = Unit {0}
NoResets (a ∷ actions) = (a ≢ resets) × NoResets actions

module _ {p : Platform} where
  -- From a sound state, whatever samples arrive, however often the loop comes round and whoever
  -- stops it: as long as nobody resets the statistics, the ring stays in order, the index right,
  -- and the reported drops stay, modulo 2 ^ 64, what the queue and the cache had counted beyond the
  -- same bases when they were last looked at.
  pub history-IsSound :
      (actions : List Action) {queue_base bg_base : ℕ} (r : Reactor p)
      → NoResets actions
      → IsSound queue_base bg_base r
      → IsSound queue_base bg_base (history actions r).0
  unfolding history
  history-IsSound [] r h s = s
  history-IsSound (a ∷ actions) r h s =
      history-IsSound actions (act a r).0 h.1 (act-IsSound a r h.0 s)

  handle_events_marks :
      (clock : ℕ → ℕ) (w : Wait) (r : Reactor p) (queue_base bg_base : ℕ)
      → IsSound queue_base bg_base r
      → let c = (handle_events clock w r).0.counters in
        (c.last_queue_dropped ≡ dropped_count r.critical_queue)
        × (c.last_bg_dropped ≡ get_total_dropped r.background_cache)
  unfolding handle_events dropped_count count_background count_cycle
  handle_events_marks clock w r queue_base bg_base s =
      let (_, caught_up) =
        sync_dropped-IsAccounted r.critical_queue.dropped queue_base bg_base r.counters
          (omega (arith, s.held.lost, s.narrow)) s.accounted in
      let kept = await_keeps w _ in
      let (_, _, total) = background_phase_lem clock r (queue_phase clock r) s.indexed in
      (
        ap (λ (c : Counters). c.last_queue_dropped) kept.2 ∙ caught_up,
        ap (λ (c : Counters). c.last_bg_dropped) kept.2 ∙ total,
      )

  -- After a cycle from a sound state, CRITICAL and NORMAL drops together, added to the queue's
  -- base, are exactly what the queue had counted when the cycle began, and BACKGROUND drops, added
  -- to the cache's base, exactly what the cache has counted. Sums are modulo 2 ^ 64: no drop is
  -- lost or counted twice, whatever the shares.
  pub handle_events_drops :
      (clock : ℕ → ℕ) (w : Wait) (r : Reactor p) (queue_base bg_base : ℕ)
      → IsSound queue_base bg_base r
      → let c = (handle_events clock w r).0.counters in
        (add64 (add64 c.critical_dropped c.normal_dropped) queue_base
          ≡ dropped_count r.critical_queue)
        × (add64 c.background_dropped bg_base ≡ get_total_dropped r.background_cache)
  handle_events_drops clock w r queue_base bg_base s =
      let after = handle_events-IsSound clock w r s in
      let marks = handle_events_marks clock w r queue_base bg_base s in
      (after.accounted.queue_side ∙ marks.0, after.accounted.bg_side ∙ marks.1)

  -- In a sound state `reset_stats` starts the account anew with what both sources show as the
  -- bases, whatever the bases were before.
  pub reset_stats-IsSound :
      (r : Reactor p) {queue_base bg_base : ℕ}
      → IsSound queue_base bg_base r
      → IsSound
          (dropped_count r.critical_queue)
          (get_total_dropped r.background_cache)
          (reset_stats r)
  unfolding reset_stats dropped_count
  reset_stats-IsSound r s =
      let fits : r.critical_queue.dropped < 2 ^ 64 = omega (arith, s.held.lost, s.narrow) in
      let fits' = get_total_dropped_lt r.background_cache in
      record {
        frames = s.frames;
        held = s.held;
        narrow = s.narrow;
        indexed = s.indexed;
        accounted = record {
          wide = record {
            critical_wide = omega arith;
            normal_wide = omega arith;
            background_wide = omega arith;
            queue_wide = fits;
            bg_wide = fits';
          };
          queue_side = omega arith;
          bg_side = omega arith;
        };
      }
