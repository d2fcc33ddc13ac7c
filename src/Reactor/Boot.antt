-- ===== src/Reactor/Boot.antt =====
-- From the constructor through registration and the start of `run` to whatever follows.
use flowkernel.Base.{ℕ, ◌≡◌, refl, List, [], ◌∷◌, add64, if◌then◌else◌, Bool, true, false, arith}
use flowkernel.Hash.{Bytes}
use flowkernel.Mpsc.Refine.{no_items, new_queue-Represents}
use flowkernel.Cache.{get_total_dropped}
use flowkernel.Cache.Map.{samples}
use flowkernel.Mpsc.{dropped_count}
use flowkernel.Platform.{Platform}
use flowkernel.Reactor.{TopicPriority, Reactor, new_reactor, register_handler, arm_poll_eventfd}
use flowkernel.Reactor.Events.{Wait, handle_events}
use flowkernel.Reactor.Run.{Action, sample, cycle, stops, resets, act, history, start}
use flowkernel.Reactor.Handlers.{register_all, new_reactor-IsIndexed, register_handler-IsIndexed}
use flowkernel.Reactor.Calls.{queue_calls}
use flowkernel.Reactor.Cycle.{handle_events_calls}
use flowkernel.Reactor.OnlyCalls.{
  OnlyCalls, OnlyCalls-append, OnlyCalls-queue_calls, OnlyCalls-slot_calls,
}
use flowkernel.Reactor.Sound.{IsSound, IsSound-kept, handle_events-IsSound, act-IsSound}
use flowkernel.Reactor.History.{NoResets, history-IsSound, handle_events_drops, reset_stats-IsSound}

module _ (p : Platform) where
  pub new_reactor-IsSound : IsSound 0 0 (new_reactor p)
  unfolding new_reactor
  new_reactor-IsSound = record {
    frames = no_items;
    held = new_queue-Represents 9 (omega arith);
    narrow = omega arith;
    indexed = new_reactor-IsIndexed p;
    accounted = record {
      wide = record {
        critical_wide = omega arith;
        normal_wide = omega arith;
        background_wide = omega arith;
        queue_wide = omega arith;
        bg_wide = omega arith;
      };
      queue_side = refl;
      bg_side = refl;
    };
  }

module _ {p : Platform} {queue_base bg_base : ℕ} where
  register_handler-IsSound :
      (r : Reactor p) (path : Bytes) (priority : TopicPriority)
      → IsSound queue_base bg_base r
      → IsSound queue_base bg_base (register_handler r path priority)
  unfolding register_handler
  register_handler-IsSound r path priority s = record {
    frames = s.frames;
    held = s.held;
    narrow = s.narrow;
    indexed = register_handler-IsIndexed r path priority s.indexed;
    accounted = s.accounted;
  }

  register_all-IsSound :
      (cfg : List (Bytes × TopicPriority)) (r : Reactor p)
      → IsSound queue_base bg_base r
      → IsSound queue_base bg_base (register_all cfg r)
  register_all-IsSound [] r s = s
  register_all-IsSound ((path, priority) ∷ cfg) r s =
      register_all-IsSound cfg (register_handler r path priority)
        (register_handler-IsSound r path priority s)

  start-IsSound :
      (keyexpr_ok subscribed : Bytes → Bool) (liveliness_key : Bytes) (submitted : Bool)
      (r : Reactor p)
      → IsSound queue_base bg_base r
      → IsSound queue_base bg_base (start keyexpr_ok subscribed liveliness_key submitted r).2
  unfolding start arm_poll_eventfd
  start-IsSound keyexpr_ok subscribed liveliness_key true r s = IsSound-kept s refl refl refl refl
  start-IsSound keyexpr_ok subscribed liveliness_key false r s = IsSound-kept s refl refl refl refl

module _ {p : Platform} where
  OnlyCalls-handle_events :
      (clock : ℕ → ℕ) (w : Wait) (r : Reactor p) {queue_base bg_base : ℕ}
      → IsSound queue_base bg_base r
      → OnlyCalls (handle_events clock w r).1
  OnlyCalls-handle_events clock w r s =
      let (calls, _, _) = handle_events_calls clock w r s.held s.indexed in
      rw calls (
        OnlyCalls-append (queue_calls r.handler_index s.frames.items) _
          (OnlyCalls-queue_calls r.handler_index s.frames.items)
          (OnlyCalls-slot_calls r.handler_index (samples r.background_cache.slots)))

  OnlyCalls-act :
      (a : Action) (r : Reactor p) {queue_base bg_base : ℕ}
      → IsSound queue_base bg_base r
      → OnlyCalls (act a r).1
  unfolding act
  OnlyCalls-act (sample ctx key raw now_ms now) r s = tt
  OnlyCalls-act (cycle clock w) r s =
      elim r.running as (λ b. OnlyCalls (if b then handle_events clock w r else (r, [])).1) [
        | true ↦ OnlyCalls-handle_events clock w r s
        | false ↦ tt
      ]
  OnlyCalls-act stops r s = tt
  OnlyCalls-act resets r s = tt

  -- Sound for some bases: a reset moves them, and nothing else does.
  act_stays_IsSound :
      (a : Action) (r : Reactor p) {queue_base bg_base : ℕ}
      → IsSound queue_base bg_base r
      → (qb : ℕ) × (bb : ℕ) × IsSound qb bb (act a r).0
  unfolding act
  act_stays_IsSound resets r s = (
    dropped_count r.critical_queue,
    get_total_dropped r.background_cache,
    reset_stats-IsSound r s,
  )
  act_stays_IsSound (sample ctx key raw now_ms now) r {queue_base} {bg_base} s =
      (queue_base, bg_base, act-IsSound (sample ctx key raw now_ms now) r (λ e. cc) s)
  act_stays_IsSound (cycle clock w) r {queue_base} {bg_base} s =
      (queue_base, bg_base, act-IsSound (cycle clock w) r (λ e. cc) s)
  act_stays_IsSound stops r {queue_base} {bg_base} s =
      (queue_base, bg_base, act-IsSound stops r (λ e. cc) s)

  OnlyCalls-history :
      (actions : List Action) (r : Reactor p) {queue_base bg_base : ℕ}
      → IsSound queue_base bg_base r
      → OnlyCalls (history actions r).1
  unfolding history
  OnlyCalls-history [] r s = tt
  OnlyCalls-history (a ∷ actions) r s =
      let (qb, bb, s') = act_stays_IsSound a r s in
      OnlyCalls-append (act a r).1 _ (OnlyCalls-act a r s)
        (OnlyCalls-history actions (act a r).0 s')

module _ (p : Platform) (keyexpr_ok subscribed : Bytes → Bool) (liveliness_key : Bytes) where
  -- A reactor that was constructed, given these handlers, and started.
  abbrev pub booted : List (Bytes × TopicPriority) → Bool → Reactor p
  booted cfg submitted =
      (start keyexpr_ok subscribed liveliness_key submitted (register_all cfg (new_reactor p))).2

  pub booted-IsSound :
      (cfg : List (Bytes × TopicPriority)) (submitted : Bool) → IsSound 0 0 (booted cfg submitted)
  booted-IsSound cfg submitted =
      start-IsSound keyexpr_ok subscribed liveliness_key submitted
        (register_all cfg (new_reactor p))
        (register_all-IsSound cfg (new_reactor p) (new_reactor-IsSound p))

  -- From the constructor through any registrations and the start of `run`, whatever samples arrive
  -- and whatever cycles, stops and resets follow, the reactor only calls handlers: it never reads
  -- `handlers_` out of range, nor a slot of the queue without a frame.
  pub history-OnlyCalls :
      (cfg : List (Bytes × TopicPriority)) (submitted : Bool) (actions : List Action)
      → OnlyCalls (history actions (booted cfg submitted)).1
  history-OnlyCalls cfg submitted actions =
      OnlyCalls-history actions (booted cfg submitted) (booted-IsSound cfg submitted)

  -- From the constructor through any registrations and the start of `run`, as long as nobody resets
  -- the statistics: after a cycle that follows any actions, the drops reported for CRITICAL and
  -- NORMAL together are what the queue has counted when the cycle begins, modulo 2 ^ 64, and those
  -- for BACKGROUND what the cache has counted.
  pub booted_drops :
      (cfg : List (Bytes × TopicPriority)) (submitted : Bool) (actions : List Action)
      (clock : ℕ → ℕ) (w : Wait)
      → NoResets actions
      → let r = (history actions (booted cfg submitted)).0 in
        let c = (handle_events clock w r).0.counters in
        (add64 c.critical_dropped c.normal_dropped ≡ dropped_count r.critical_queue)
        × (c.background_dropped ≡ get_total_dropped r.background_cache)
  booted_drops cfg submitted actions clock w h =
      let r = (history actions (booted cfg submitted)).0 in
      let sound = history-IsSound actions (booted cfg submitted) h (booted-IsSound cfg submitted) in
      let (queue_side, bg_side) = handle_events_drops clock w r 0 0 sound in
      let wide = (handle_events-IsSound clock w r sound).accounted.wide in
      (omega (arith, queue_side), omega (arith, bg_side, wide.background_wide))
