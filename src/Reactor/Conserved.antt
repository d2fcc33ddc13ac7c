-- ===== src/Reactor/Conserved.antt =====
-- Every sample for the queue is handled, waits or is counted as dropped.
use flowkernel.Base.{
  ℕ, ◌^◌, ◌<◌, ◌≡◌, refl, ap, ◌∙◌, List, [], ◌∷◌, ◌++◌, Option, none, some, true, false, not, arith,
  add64, length, length-append, Bool-cases, inl, inr, ◌==◌, if◌then◌else◌,
}
use flowkernel.Hash.{Bytes}
use flowkernel.Mpsc.{Popped, empty, item, fault, Queue, push, pop, next_index, dropped_count}
use flowkernel.Mpsc.Fifo.{Fifo}
use flowkernel.Mpsc.Represents.{Represents}
use flowkernel.Cache.{LatestSampleSlot}
use flowkernel.Platform.{Platform}
use flowkernel.Reactor.{
  TopicPriority, critical, normal, background, CriticalSample, CallbackContext, Reactor,
  queue_capacity, stop,
}
use flowkernel.Reactor.Callback.{track_session, enqueue, route, data_callback}
use flowkernel.Reactor.Events.{Cycle, Drained, Wait}
use flowkernel.Reactor.Stats.{reset_stats}
use flowkernel.Reactor.Handlers.{IsIndexed}
use flowkernel.Reactor.Enqueue.{frame}
use flowkernel.Reactor.Calls.{queue_calls}
use flowkernel.Reactor.Cycle.{await_keeps}
use flowkernel.Reactor.Arrivals.{wake_keeps_queue, track_session_queue}
use flowkernel.Reactor.Delivery.{arrived, live_in_order}
use flowkernel.Reactor.Offered.{
  Shuffle, offered, left_out, refused_in, refused_at, refused, Shuffle-offered,
}
use flowkernel.Reactor.Live.{
  LivePhase, resting, emptying, visiting, waiting, Live, LiveTurn, arrives, proceeds, wakes, halts,
  resets_all, begin_cycle, queue_round, slot_round, proceed, wake_up, live_turn, live,
}

dropped-push :
    (q : Queue CriticalSample) (cs : CriticalSample)
    → q.dropped < 2 ^ 64
    → (push queue_capacity q cs).1.dropped
      ≡ add64 q.dropped (length (if (push queue_capacity q cs).0 then [] else cs ∷ []))
unfolding push
dropped-push q cs h = elim (Bool-cases (next_index queue_capacity q.tail == q.head)) [
  | inl full ↦ rw full refl
  | inr room ↦ rw room (omega arith)
]

dropped-pop : (q : Queue CriticalSample) → (pop queue_capacity q).1.dropped ≡ q.dropped
unfolding pop
dropped-pop q = elim (Bool-cases (q.head == q.tail)) [
  | inl nothing ↦ rw nothing refl
  | inr more ↦ rw more refl
]

module _ {p : Platform} where
  abbrev drops : Reactor p → ℕ
  drops r = r.critical_queue.dropped

  drops-enqueue :
      (ctx : CallbackContext) (buf : Bytes) (now : ℕ) (r : Reactor p)
      → drops r < 2 ^ 64
      → drops (enqueue ctx buf now r)
        ≡ add64 (drops r) (
            length (
              if (push queue_capacity r.critical_queue (frame ctx buf now)).0
              then []
              else frame ctx buf now ∷ []))
  unfolding enqueue
  drops-enqueue ctx buf now r h =
      ap (λ (q : Queue CriticalSample). q.dropped) (wake_keeps_queue ctx.priority _ _)
      ∙ dropped-push r.critical_queue (frame ctx buf now) h

  drops-route :
      (ctx : CallbackContext) (buf : Bytes) (now : ℕ) (r : Reactor p) (t : TopicPriority)
      → ctx.priority ≡ t
      → drops r < 2 ^ 64
      → drops (route ctx buf now r)
        ≡ add64 (drops r) (length (left_out t (frame ctx buf now) r.critical_queue))
  unfolding route
  drops-route ctx buf now r critical e h = rw (e, route) (drops-enqueue ctx buf now r h)
  drops-route ctx buf now r normal e h = rw (e, route) (drops-enqueue ctx buf now r h)
  drops-route ctx buf now r background e h = rw (e, route) (omega arith)

  drops-data_callback :
      (ctx : CallbackContext) (key raw : Bytes) (now_ms now : ℕ) (r : Reactor p)
      → drops r < 2 ^ 64
      → drops (data_callback ctx key raw now_ms now r)
        ≡ add64 (drops r) (length (refused_in ctx raw now r))
  unfolding data_callback
  drops-data_callback ctx key raw now_ms now r h = elim (Bool-cases (length raw == 0)) [
    | inl nothing ↦ rw nothing (omega arith)
    | inr bytes ↦ rw bytes (elim (Bool-cases (not (p.verify raw))) [
      | inl bad ↦ rw bad (omega arith)
      | inr good ↦
          let same = track_session_queue key now_ms r in
          let r' = track_session key now_ms r in
          let same_drops = ap (λ (q : Queue CriticalSample). q.dropped) same in
          rw good (
            drops-route ctx raw now r' ctx.priority refl (omega (arith, h, same_drops))
            ∙ ap (λ q. add64 q.dropped (length (left_out ctx.priority (frame ctx raw now) q))) same)
    ])
  ]

  drops-queue_round :
      (clock : ℕ → ℕ) (x : Popped CriticalSample) (q : Queue CriticalSample) (cy : Cycle p.Micros)
      (m : Live p)
      → q.dropped ≡ drops m.reactor
      → drops (queue_round clock x q cy m).reactor ≡ drops m.reactor
  unfolding queue_round
  drops-queue_round clock empty q cy m e = refl
  drops-queue_round clock fault q cy m e = refl
  drops-queue_round clock (item cs) q cy m e = e

  drops-slot_round :
      (clock : ℕ → ℕ) (entry : Option (ℕ × LatestSampleSlot)) (n : ℕ) (d : Drained p.Micros)
      (m : Live p)
      → drops (slot_round clock entry n d m).reactor ≡ drops m.reactor
  unfolding slot_round
  drops-slot_round clock none n d m = refl
  drops-slot_round clock (some (j, s)) n d m = refl

  drops-proceed :
      (clock : ℕ → ℕ) (phase : LivePhase p.Micros) (m : Live p)
      → drops (proceed clock phase m).reactor ≡ drops m.reactor
  unfolding proceed begin_cycle
  drops-proceed clock resting m =
      elim m.reactor.running
        as (λ b. drops (if b then begin_cycle m else m).reactor ≡ drops m.reactor) [
          | true ↦ refl
          | false ↦ refl
        ]
  drops-proceed clock (emptying cy) m =
      drops-queue_round clock _ _ cy m (dropped-pop m.reactor.critical_queue)
  drops-proceed clock (visiting n d) m = drops-slot_round clock _ n d m
  drops-proceed clock waiting m = refl

  drops-wake_up :
      (w : Wait) (phase : LivePhase p.Micros) (m : Live p)
      → drops (wake_up w phase m).reactor ≡ drops m.reactor
  unfolding wake_up
  drops-wake_up w waiting m =
      ap (λ (q : Queue CriticalSample). q.dropped) (await_keeps w m.reactor).0
  drops-wake_up w resting m = refl
  drops-wake_up w (emptying cy) m = refl
  drops-wake_up w (visiting n d) m = refl

  drops-turn :
      (t : LiveTurn) (m : Live p)
      → drops m.reactor < 2 ^ 64
      → drops (live_turn t m).reactor ≡ add64 (drops m.reactor) (length (refused_at t m))
  unfolding live_turn stop reset_stats
  drops-turn (arrives ctx key raw now_ms now) m h =
      drops-data_callback ctx key raw now_ms now m.reactor h
  drops-turn (proceeds clock) m h = omega (arith, drops-proceed clock m.phase m)
  drops-turn (wakes w) m h = omega (arith, drops-wake_up w m.phase m)
  drops-turn halts m h = omega arith
  drops-turn resets_all m h = omega arith

  drops-live :
      (turns : List LiveTurn) (m : Live p)
      → drops m.reactor < 2 ^ 64
      → drops (live turns m).reactor ≡ add64 (drops m.reactor) (length (refused turns m))
  unfolding live
  drops-live [] m h = omega arith
  drops-live (t ∷ turns) m h =
      let first = drops-turn t m h in
      let rest = drops-live turns (live_turn t m) (omega (arith, first)) in
      omega (arith, first, rest, length-append (refused_at t m) (refused turns (live_turn t m)))

  -- Whatever the thread of the event loop and other threads do, and in whatever order: the frames
  -- that valid samples of CRITICAL and NORMAL topics offered to the queue are those that it took
  -- and those that it refused, shuffled. From a queue that holds `f`, with a counter of drops below
  -- 2 ^ 64, and a look-up of handlers that is in order, the calls made for frames, followed by
  -- those that the frames still in the queue will make, are the calls made before, followed by
  -- those of `f` and of the frames taken, each once and in their order; and the queue's counter of
  -- drops has grown by the number of those refused, modulo 2 ^ 64. No sample is lost without being
  -- counted.
  pub live_conserves :
      (turns : List LiveTurn) (m : Live p) {f : Fifo CriticalSample}
      → Represents 9 m.reactor.critical_queue f
      → f.lost < 2 ^ 64
      → IsIndexed m.reactor.handlers m.reactor.handler_index
      → let m' = live turns m in
        let calls = queue_calls m.reactor.handler_index in
        (taken : List CriticalSample) × (dropped : List CriticalSample) × (g : Fifo CriticalSample)
        × Shuffle taken dropped (offered p turns)
        × Represents 9 m'.reactor.critical_queue g
        × (m'.queue_log ++ calls g.items ≡ m.queue_log ++ calls (f.items ++ taken))
        × (dropped_count m'.reactor.critical_queue
            ≡ add64 (dropped_count m.reactor.critical_queue) (length dropped))
  unfolding dropped_count
  live_conserves turns m held narrow ok =
      let (g, held', calls) = live_in_order turns m held ok in
      (
        arrived turns m,
        refused turns m,
        g,
        Shuffle-offered turns m,
        held',
        calls,
        drops-live turns m (omega (arith, held.lost, narrow)),
      )
