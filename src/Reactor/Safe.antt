-- ===== src/Reactor/Safe.antt =====
-- Round by round, and with whatever other threads do within a cycle, only handlers are called.
use flowkernel.Base.{
  ℕ, ◌≡◌, refl, sym, subst, subst₂, ◌∙◌, List, [], ◌∷◌, ◌++◌, append-nil, Option, none, some, Bool,
  true, false, if◌then◌else◌,
}
use flowkernel.Base.Assoc.{lookup}
use flowkernel.Hash.{Bytes}
use flowkernel.Mpsc.{Popped, empty, item, fault, Queue}
use flowkernel.Cache.{LatestSampleSlot, Sample, take, consume}
use flowkernel.Platform.{Platform}
use flowkernel.Reactor.{TopicPriority, CriticalSample, Handler, stop}
use flowkernel.Reactor.Events.{Event, Cycle, Drained, Wait, consume_background}
use flowkernel.Reactor.Stats.{reset_stats}
use flowkernel.Reactor.Handlers.{IsIndexed}
use flowkernel.Reactor.Calls.{call_of, trace-consume}
use flowkernel.Reactor.OnlyCalls.{
  OnlyCalls, OnlyCalls-append, OnlyCalls-call_of, OnlyCalls-queue_calls, OnlyCalls-front,
}
use flowkernel.Reactor.Cycle.{await_keeps}
use flowkernel.Reactor.Arrivals.{keeps_handlers, keeps_index}
use flowkernel.Reactor.Boot.{booted, booted-IsSound}
use flowkernel.Reactor.Delivery.{live_in_order}
use flowkernel.Reactor.Live.{
  LivePhase, resting, emptying, visiting, waiting, Live, LiveTurn, arrives, proceeds, wakes, halts,
  resets_all, begin_cycle, queue_round, slot_round, proceed, wake_up, live_turn, live,
}
use flowkernel.Reactor.Alone.{at_rest}

module _ {L : Type 0} (micros : ℕ → ℕ → L) (clock : ℕ → ℕ) (handlers : List Handler)
    (index : List (ℕ × ℕ)) (ok : IsIndexed handlers index) where
  -- What holds of a log and goes on holding with a call holds after a slot.
  consume_grows :
      (P : List Event → Type 0)
      → ((x : Sample) (log : List Event)
          → P log
          → P (log ++ call_of (lookup x.handler_hash index) x.payload))
      → (x : Option Sample) (d : Drained L) → P d.trace
      → P (consume (consume_background micros clock handlers index) d x).trace
  consume_grows P grows none d h = h
  consume_grows P grows (some x) d h =
      subst P (sym (trace-consume micros clock handlers index ok x d)) (grows x d.trace h)

module _ {p : Platform} (hs : List Handler) (index : List (ℕ × ℕ)) (ok : IsIndexed hs index)
    (P : List Event → Type 0)
    (grows : (x : Sample) (log : List Event)
      → P log
      → P (log ++ call_of (lookup x.handler_hash index) x.payload)) where
  -- The handlers stay, and the calls made for the slots have a property that each further one keeps.
  abbrev pub SlotsSafe : Live p → Type 0
  SlotsSafe m = (m.reactor.handlers ≡ hs) × (m.reactor.handler_index ≡ index) × P m.slot_log

  queue_round-SlotsSafe :
      (clock : ℕ → ℕ) (x : Popped CriticalSample) (q : Queue CriticalSample) (cy : Cycle p.Micros)
      (m : Live p)
      → SlotsSafe m
      → SlotsSafe (queue_round clock x q cy m)
  unfolding queue_round
  queue_round-SlotsSafe clock empty q cy m s = s
  queue_round-SlotsSafe clock fault q cy m s = s
  queue_round-SlotsSafe clock (item cs) q cy m s = s

  slot_round-SlotsSafe :
      (clock : ℕ → ℕ) (entry : Option (ℕ × LatestSampleSlot)) (n : ℕ) (d : Drained p.Micros)
      (m : Live p)
      → SlotsSafe m
      → SlotsSafe (slot_round clock entry n d m)
  unfolding slot_round
  slot_round-SlotsSafe clock none n d m s = s
  slot_round-SlotsSafe clock (some (j, x)) n d m (eh, ei, log) =
      let r = m.reactor in
      let ok' : IsIndexed r.handlers r.handler_index = subst₂ IsIndexed (sym eh) (sym ei) ok in
      (
        eh,
        ei,
        consume_grows p.micros_between clock r.handlers r.handler_index ok' P
            (λ y log h.
              subst (λ i. P (log ++ call_of (lookup y.handler_hash i) y.payload)) (sym ei)
                (grows y log h))
            (take x).0 (record d { latencies = r.latencies; trace = m.slot_log }) log,
      )

  proceed-SlotsSafe :
      (clock : ℕ → ℕ) (phase : LivePhase p.Micros) (m : Live p)
      → SlotsSafe m
      → SlotsSafe (proceed clock phase m)
  unfolding proceed begin_cycle
  proceed-SlotsSafe clock resting m s =
      elim m.reactor.running as (λ b. SlotsSafe (if b then begin_cycle m else m)) [
        | true ↦ s
        | false ↦ s
      ]
  proceed-SlotsSafe clock (emptying cy) m s = queue_round-SlotsSafe clock _ _ cy m s
  proceed-SlotsSafe clock (visiting n d) m s = slot_round-SlotsSafe clock _ n d m s
  proceed-SlotsSafe clock waiting m s = s

  wake_up-SlotsSafe :
      (w : Wait) (phase : LivePhase p.Micros) (m : Live p)
      → SlotsSafe m
      → SlotsSafe (wake_up w phase m)
  unfolding wake_up
  wake_up-SlotsSafe w waiting m (eh, ei, log) =
      let (_, _, _, h, i, _) = await_keeps w m.reactor in (h ∙ eh, i ∙ ei, log)
  wake_up-SlotsSafe w resting m s = s
  wake_up-SlotsSafe w (emptying cy) m s = s
  wake_up-SlotsSafe w (visiting n d) m s = s

  pub live-SlotsSafe : (turns : List LiveTurn) (m : Live p) → SlotsSafe m → SlotsSafe (live turns m)
  unfolding live live_turn stop reset_stats
  live-SlotsSafe [] m s = s
  live-SlotsSafe (arrives ctx key raw now_ms now ∷ turns) m (eh, ei, log) =
      live-SlotsSafe turns (live_turn (arrives ctx key raw now_ms now) m) (
        keeps_handlers ctx key raw now_ms now m.reactor ∙ eh,
        keeps_index ctx key raw now_ms now m.reactor ∙ ei,
        log,
      )
  live-SlotsSafe (proceeds clock ∷ turns) m s =
      live-SlotsSafe turns (proceed clock m.phase m) (proceed-SlotsSafe clock m.phase m s)
  live-SlotsSafe (wakes w ∷ turns) m s =
      live-SlotsSafe turns (wake_up w m.phase m) (wake_up-SlotsSafe w m.phase m s)
  live-SlotsSafe (halts ∷ turns) m s = live-SlotsSafe turns (live_turn halts m) s
  live-SlotsSafe (resets_all ∷ turns) m s = live-SlotsSafe turns (live_turn resets_all m) s

OnlyCalls-grows :
    (index : List (ℕ × ℕ)) (x : Sample) (log : List Event)
    → OnlyCalls log
    → OnlyCalls (log ++ call_of (lookup x.handler_hash index) x.payload)
OnlyCalls-grows index x log h =
    let call = call_of (lookup x.handler_hash index) x.payload in
    OnlyCalls-append log call h (
      subst OnlyCalls (append-nil call)
        (OnlyCalls-call_of (lookup x.handler_hash index) x.payload [] tt))

module _ (p : Platform) (keyexpr_ok subscribed : Bytes → Bool) (liveliness_key : Bytes) where
  -- From the constructor through any registrations and the start of `run`, whatever samples arrive,
  -- within a cycle too, however far the thread of the event loop goes and whatever stops and resets
  -- come: the reactor only calls handlers. It never reads `handlers_` out of range, nor a slot of
  -- the queue without a frame.
  pub live-OnlyCalls :
      (cfg : List (Bytes × TopicPriority)) (submitted : Bool) (turns : List LiveTurn)
      → let m =
          live turns (at_rest (booted p keyexpr_ok subscribed liveliness_key cfg submitted)) in
        OnlyCalls m.queue_log × OnlyCalls m.slot_log
  live-OnlyCalls cfg submitted turns =
      let r = booted p keyexpr_ok subscribed liveliness_key cfg submitted in
      let s = booted-IsSound p keyexpr_ok subscribed liveliness_key cfg submitted in
      let (g, _, calls) = live_in_order turns (at_rest r) s.held s.indexed in
      let (_, _, slots) =
        live-SlotsSafe r.handlers r.handler_index s.indexed OnlyCalls
          (OnlyCalls-grows r.handler_index) turns (at_rest r) (refl, refl, tt) in
      (
        OnlyCalls-front (live turns (at_rest r)).queue_log _
            (subst OnlyCalls (sym calls) (OnlyCalls-queue_calls r.handler_index _)),
        slots,
      )
