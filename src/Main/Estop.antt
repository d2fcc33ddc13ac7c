-- ===== src/Main/Estop.antt =====
-- An E-Stop from the loss of a robot to the handler that reports it.
use flowkernel.Base.{
  ℕ, ◌<◌, ◌≡◌, ◌≢◌, refl, sym, ap, ap₂, subst, subst₂, ◌∙◌, List, [], ◌∷◌, ◌++◌, some, Bool, true,
  false, ==_iff, Option-cases, Bool-cases, inl, inr, sub64, u64, ◌==◌, length,
}
use flowkernel.Base.Assoc.{lookup}
use flowkernel.Hash.{Bytes}
use flowkernel.Mpsc.Fifo.{Fifo}
use flowkernel.Mpsc.Represents.{Represents}
use flowkernel.Cache.{LatestSampleCache}
use flowkernel.Cache.Map.{samples}
use flowkernel.Platform.{Platform}
use flowkernel.Messages.{RobotMessage, FlatBuffers}
use flowkernel.Liveliness.{delete, estop_message, liveliness_callback}
use flowkernel.Main.{estop_arrived, log_of, on_message}
use flowkernel.Reactor.{
  TopicPriority, critical, normal, background, CriticalSample, CallbackContext, Reactor,
}
use flowkernel.Reactor.Callback.{robot_id, track_session, wake, enqueue, route, data_callback}
use flowkernel.Reactor.Events.{called, Wait, handle_events}
use flowkernel.Reactor.Handlers.{IsIndexed}
use flowkernel.Reactor.Calls.{call_of, queue_calls, slot_calls, queue_calls-append}
use flowkernel.Reactor.Cycle.{handle_events_calls}
use flowkernel.Reactor.Enqueue.{frame, enqueue-room, enqueue_wakes}

module _ {p : Platform} where
  -- A valid critical sample goes to the queue.
  critical-data_callback :
      (ctx : CallbackContext) (key raw : Bytes) (now_ms now : ℕ) (r : Reactor p)
      → length raw ≢ 0
      → p.verify raw ≡ true
      → ctx.priority ≡ critical
      → data_callback ctx key raw now_ms now r ≡ enqueue ctx raw now (track_session key now_ms r)
  unfolding data_callback route
  critical-data_callback ctx key raw now_ms now r bytes valid urgent =
      elim (Bool-cases (length raw == 0)) [
        | inl nothing ↦ absurd (bytes ((==_iff (length raw) 0).0 nothing))
        | inr some_bytes ↦ rw (some_bytes, valid, urgent)
      ]

  track_session_keeps :
      (key : Bytes) (now_ms : ℕ) (r : Reactor p)
      → ((track_session key now_ms r).critical_queue ≡ r.critical_queue)
        × ((track_session key now_ms r).background_cache ≡ r.background_cache)
        × ((track_session key now_ms r).handlers ≡ r.handlers)
        × ((track_session key now_ms r).handler_index ≡ r.handler_index)
  unfolding track_session
  track_session_keeps key now_ms r = elim (Option-cases (robot_id key)) [
    | inl e ↦ rw (e, track_session) (refl, refl, refl, refl)
    | inr (id, e) ↦ rw (e, track_session) (refl, refl, refl, refl)
  ]

  wake_keeps :
      (t : TopicPriority) (pushed : Bool) (r : Reactor p)
      → ((wake t pushed r).background_cache ≡ r.background_cache)
        × ((wake t pushed r).handlers ≡ r.handlers)
        × ((wake t pushed r).handler_index ≡ r.handler_index)
  unfolding wake
  wake_keeps critical true r = (refl, refl, refl)
  wake_keeps critical false r = (refl, refl, refl)
  wake_keeps normal pushed r = (refl, refl, refl)
  wake_keeps background pushed r = (refl, refl, refl)

  enqueue_keeps_cache :
      (ctx : CallbackContext) (raw : Bytes) (now : ℕ) (r : Reactor p)
      → (enqueue ctx raw now r).background_cache ≡ r.background_cache
  unfolding enqueue
  enqueue_keeps_cache ctx raw now r = (wake_keeps ctx.priority _ _).0

  enqueue_keeps_index :
      (ctx : CallbackContext) (raw : Bytes) (now : ℕ) (r : Reactor p)
      → ((enqueue ctx raw now r).handlers ≡ r.handlers)
        × ((enqueue ctx raw now r).handler_index ≡ r.handler_index)
  unfolding enqueue
  enqueue_keeps_index ctx raw now r =
      let (_, e_handlers, e_index) = wake_keeps ctx.priority _ _ in (e_handlers, e_index)

  published_facts :
      (fb : FlatBuffers p) {buf : Bytes} (t : ℕ)
      → liveliness_callback fb delete t ≡ some buf
      → (length buf ≢ 0)
        × (p.verify buf ≡ true)
        × (fb.get_robot_message buf ≡ estop_message fb.Float t)
  unfolding liveliness_callback
  published_facts fb {buf} t published =
      let m = estop_message fb.Float t in
      let same : fb.finish m ≡ buf = cc in
      subst (λ (b : Bytes). (length b ≢ 0) × (p.verify b ≡ true) × (fb.get_robot_message b ≡ m))
        same (fb.finish_not_empty m, fb.finish-verify m, fb.get_robot_message-finish m)

  -- The cycle after a frame has come to the queue.
  critical_called :
      (ctx : CallbackContext) (buf : Bytes) (now : ℕ) {idx : ℕ} (clock : ℕ → ℕ) (w : Wait)
      (r : Reactor p) {f : Fifo CriticalSample}
      → Represents 9 r.critical_queue f
      → length f.items < 511
      → IsIndexed r.handlers r.handler_index
      → lookup ctx.handler_hash r.handler_index ≡ some idx
      → (handle_events clock w (enqueue ctx buf now r)).1
        ≡ queue_calls r.handler_index f.items
          ++ called idx buf ∷ []
          ++ slot_calls r.handler_index (samples r.background_cache.slots)
  critical_called ctx buf now {idx} clock w r {f} held room indexed found =
      let r' = enqueue ctx buf now r in
      let (held', _) = enqueue-room ctx buf now r held room in
      let (e_handlers, e_index) = enqueue_keeps_index ctx buf now r in
      let indexed' : IsIndexed r'.handlers r'.handler_index =
        subst₂ IsIndexed (sym e_handlers) (sym e_index) indexed in
      let (calls, _, _) = handle_events_calls clock w r' held' indexed' in
      let index = r.handler_index in
      calls
      ∙ ap₂
          (λ (i : List (ℕ × ℕ)) (c : LatestSampleCache).
            queue_calls i (f.items ++ frame ctx buf now ∷ []) ++ slot_calls i (samples c.slots))
          e_index (enqueue_keeps_cache ctx buf now r)
      ∙ ap (λ xs. xs ++ slot_calls index (samples r.background_cache.slots))
          (queue_calls-append index f.items (frame ctx buf now ∷ [])
            ∙ ap (λ o. queue_calls index f.items ++ (call_of o buf ++ [])) found)

  -- A buffer that the callback publishes when a robot is gone, received under a CRITICAL topic by a
  -- reactor with a handler for it and fewer than 511 frames in its queue: the eventfd becomes
  -- readable, and the next cycle calls that handler with this buffer, after the frames that were
  -- queued before and ahead of every BACKGROUND frame. `main`'s callback for a CRITICAL topic finds
  -- an E-Stop in it, with the time that the publisher's clock showed, `t` modulo 2 ^ 64.
  pub estop_handled :
      (fb : FlatBuffers p) (ctx : CallbackContext) (key : Bytes) {buf : Bytes}
      (t now_ms now sys_now : ℕ) {idx : ℕ} (clock : ℕ → ℕ) (w : Wait) (r : Reactor p)
      {f : Fifo CriticalSample}
      → liveliness_callback fb delete t ≡ some buf
      → ctx.priority ≡ critical
      → Represents 9 r.critical_queue f
      → length f.items < 511
      → IsIndexed r.handlers r.handler_index
      → lookup ctx.handler_hash r.handler_index ≡ some idx
      → let r' = data_callback ctx key buf now_ms now r in
        (p.readable r'.wakeup ≡ true)
        × ((handle_events clock w r').1
            ≡ queue_calls r.handler_index f.items
              ++ called idx buf ∷ []
              ++ slot_calls r.handler_index (samples r.background_cache.slots))
        × (on_message fb critical buf sys_now ≡ some (estop_arrived (sub64 sys_now (u64 t))))
  unfolding on_message estop_message
  estop_handled fb ctx key {buf} t now_ms now sys_now {idx} clock w r {f} published urgent held room
        indexed found =
      let (bytes, valid, read) = published_facts fb t published in
      let r0 = track_session key now_ms r in
      let (e_queue, e_cache, e_handlers, e_index) = track_session_keeps key now_ms r in
      let held0 : Represents 9 r0.critical_queue f =
        subst (λ q. Represents 9 q f) (sym e_queue) held in
      let indexed0 : IsIndexed r0.handlers r0.handler_index =
        subst₂ IsIndexed (sym e_handlers) (sym e_index) indexed in
      let found0 = ap (lookup ctx.handler_hash) e_index ∙ found in
      rw (critical-data_callback ctx key buf now_ms now r bytes valid urgent) (
        enqueue_wakes ctx buf now r0 held0 room urgent,
        critical_called ctx buf now clock w r0 held0 room indexed0 found0
            ∙ ap₂
                (λ (i : List (ℕ × ℕ)) (c : LatestSampleCache).
                  queue_calls i f.items ++ called idx buf ∷ [] ++ slot_calls i (samples c.slots))
                e_index e_cache,
        ap (λ (m : RobotMessage fb.Float). log_of critical m.payload sys_now) read,
      )
