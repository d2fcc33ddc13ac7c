-- ===== src/Reactor/Sound.antt =====
-- The invariant of the reactor: its queue is a ring in order, its index is right, and the drops
-- that it reports are those that the queue and the cache have counted since the last reset.
use flowkernel.Base.{
  ℕ, ◌^◌, ◌<◌, ◌≡◌, ◌≢◌, refl, sym, subst, subst₂, [], Bool, true, false, not, arith, length,
  Option-cases, Bool-cases, inl, inr, ◌==◌, if◌then◌else◌,
}
use flowkernel.Hash.{Bytes}
use flowkernel.Mpsc.{push, dropped_count}
use flowkernel.Mpsc.Fifo.{Fifo, fifo_push}
use flowkernel.Mpsc.Represents.{Represents}
use flowkernel.Mpsc.Refine.{push_refines}
use flowkernel.Cache.{get_total_dropped}
use flowkernel.Cache.Dropped.{get_total_dropped_lt}
use flowkernel.Platform.{Platform}
use flowkernel.Reactor.{
  TopicPriority, critical, normal, background, CriticalSample, CallbackContext, Reactor,
  queue_capacity, stop,
}
use flowkernel.Reactor.Callback.{robot_id, track_session, wake, enqueue, route, data_callback}
use flowkernel.Reactor.Events.{Wait, queue_phase, background_phase, handle_events}
use flowkernel.Reactor.Run.{Action, sample, cycle, stops, resets, act}
use flowkernel.Reactor.Handlers.{IsIndexed}
use flowkernel.Reactor.Accounting.{
  IsAccounted, sync_dropped-IsAccounted, count_cycle-IsAccounted, count_background-IsAccounted,
}
use flowkernel.Reactor.Dispatch.{holding}
use flowkernel.Reactor.Cycle.{await_keeps, queue_phase_lem}

module _ {p : Platform} where
  pub record IsSound (queue_base bg_base : ℕ) (r : Reactor p) : Type 0 where
    pub frames : Fifo CriticalSample
    pub held : Represents 9 r.critical_queue frames
    pub narrow : frames.lost < 2 ^ 64
    pub indexed : IsIndexed r.handlers r.handler_index
    pub accounted : IsAccounted queue_base bg_base r.counters

fifo_push_narrow :
    (limit : ℕ) (f : Fifo CriticalSample) (cs : CriticalSample)
    → f.lost < 2 ^ 64
    → (fifo_push limit f cs).1.lost < 2 ^ 64
unfolding fifo_push
fifo_push_narrow limit f cs h = ground arith

module _ {p : Platform} {queue_base bg_base : ℕ} where
  -- Only these four parts of the state matter.
  pub IsSound-kept :
      {r r' : Reactor p}
      → IsSound queue_base bg_base r
      → r'.critical_queue ≡ r.critical_queue
      → r'.counters ≡ r.counters
      → r'.handlers ≡ r.handlers
      → r'.handler_index ≡ r.handler_index
      → IsSound queue_base bg_base r'
  IsSound-kept s e_queue e_counters e_handlers e_index = record {
    frames = s.frames;
    held = subst (λ t. Represents 9 t s.frames) (sym e_queue) s.held;
    narrow = s.narrow;
    indexed = subst₂ IsIndexed (sym e_handlers) (sym e_index) s.indexed;
    accounted = subst (IsAccounted queue_base bg_base) (sym e_counters) s.accounted;
  }

  wake-IsSound :
      (t : TopicPriority) (pushed : Bool) (r : Reactor p)
      → IsSound queue_base bg_base r
      → IsSound queue_base bg_base (wake t pushed r)
  unfolding wake
  wake-IsSound critical true r s = IsSound-kept s refl refl refl refl
  wake-IsSound critical false r s = s
  wake-IsSound normal pushed r s = s
  wake-IsSound background pushed r s = s

  enqueue-IsSound :
      (ctx : CallbackContext) (buf : Bytes) (now : ℕ) (r : Reactor p)
      → IsSound queue_base bg_base r
      → IsSound queue_base bg_base (enqueue ctx buf now r)
  unfolding enqueue
  enqueue-IsSound ctx buf now r s =
      let cs : CriticalSample = record {
        handler_hash = ctx.handler_hash;
        payload = buf;
        enqueue_time = now;
      } in
      wake-IsSound ctx.priority (push queue_capacity r.critical_queue cs).0 _ (record {
        frames = (fifo_push 511 s.frames cs).1;
        held = (push_refines cs s.held).1;
        narrow = fifo_push_narrow 511 s.frames cs s.narrow;
        indexed = s.indexed;
        accounted = s.accounted;
      })

  route-IsSound :
      (ctx : CallbackContext) (buf : Bytes) (now : ℕ) (r : Reactor p) (t : TopicPriority)
      → ctx.priority ≡ t
      → IsSound queue_base bg_base r
      → IsSound queue_base bg_base (route ctx buf now r)
  unfolding route
  route-IsSound ctx buf now r critical e s = rw (e, route) (enqueue-IsSound ctx buf now r s)
  route-IsSound ctx buf now r normal e s = rw (e, route) (enqueue-IsSound ctx buf now r s)
  route-IsSound ctx buf now r background e s = rw (e, route) (IsSound-kept s refl refl refl refl)

  track_session-IsSound :
      (key : Bytes) (now_ms : ℕ) (r : Reactor p)
      → IsSound queue_base bg_base r
      → IsSound queue_base bg_base (track_session key now_ms r)
  unfolding track_session
  track_session-IsSound key now_ms r s = elim (Option-cases (robot_id key)) [
    | inl e ↦ rw (e, track_session) s
    | inr (id, e) ↦ rw (e, track_session) (IsSound-kept s refl refl refl refl)
  ]

  pub data_callback-IsSound :
      (ctx : CallbackContext) (key raw : Bytes) (now_ms now : ℕ) (r : Reactor p)
      → IsSound queue_base bg_base r
      → IsSound queue_base bg_base (data_callback ctx key raw now_ms now r)
  unfolding data_callback
  data_callback-IsSound ctx key raw now_ms now r s = elim (Bool-cases (length raw == 0)) [
    | inl nothing ↦ rw nothing s
    | inr bytes ↦ rw bytes (elim (Bool-cases (not (p.verify raw))) [
      | inl bad ↦ rw bad s
      | inr good ↦ rw good (
          route-IsSound ctx raw now (track_session key now_ms r) ctx.priority refl
            (track_session-IsSound key now_ms r s))
    ])
  ]

  pub handle_events-IsSound :
      (clock : ℕ → ℕ) (w : Wait) (r : Reactor p)
      → IsSound queue_base bg_base r
      → IsSound queue_base bg_base (handle_events clock w r).0
  unfolding handle_events dropped_count
  handle_events-IsSound clock w r s =
      let (synced, _) =
        sync_dropped-IsAccounted r.critical_queue.dropped queue_base bg_base r.counters
          (omega (arith, s.held.lost, s.narrow)) s.accounted in
      let cy = queue_phase clock r in
      let kept = await_keeps w _ in
      let counted =
        count_background-IsAccounted (background_phase clock r cy).0.background_count
          (get_total_dropped (background_phase clock r cy).1) queue_base bg_base _
          (get_total_dropped_lt (background_phase clock r cy).1)
          (count_cycle-IsAccounted cy.critical_count cy.normal_count queue_base bg_base _ synced) in
      record {
        frames = holding [] s.frames.lost;
        held =
            subst (λ t. Represents 9 t (holding [] s.frames.lost)) (sym kept.0)
              (queue_phase_lem clock r s.held s.indexed).0;
        narrow = s.narrow;
        indexed = subst₂ IsIndexed (sym kept.3) (sym kept.4) s.indexed;
        accounted = subst (IsAccounted queue_base bg_base) (sym kept.2) counted;
      }

  pub act-IsSound :
      (a : Action) (r : Reactor p)
      → a ≢ resets
      → IsSound queue_base bg_base r
      → IsSound queue_base bg_base (act a r).0
  unfolding act stop
  act-IsSound (sample ctx key raw now_ms now) r h s =
      data_callback-IsSound ctx key raw now_ms now r s
  act-IsSound (cycle clock w) r h s =
      elim r.running
        as (λ b. IsSound queue_base bg_base (if b then handle_events clock w r else (r, [])).0) [
          | true ↦ handle_events-IsSound clock w r s
          | false ↦ s
        ]
  act-IsSound stops r h s = IsSound-kept s refl refl refl refl
  act-IsSound resets r h s = absurd (h refl)
