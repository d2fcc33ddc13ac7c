-- ===== src/Reactor/Delivery.antt =====
-- Frames that arrive at any time, also while a cycle runs, reach their handlers.
use flowkernel.Base.{
  ℕ, ◌≡◌, refl, sym, ap, subst, subst₂, ◌∙◌, List, [], ◌∷◌, ◌++◌, append-nil, append_assoc, Option,
  none, some, true, false, if◌then◌else◌, get_elem?,
}
use flowkernel.Base.Assoc.{lookup}
use flowkernel.Mpsc.Fifo.{Fifo}
use flowkernel.Mpsc.Represents.{Represents}
use flowkernel.Mpsc.Refine.{pop-empty, pop-item, Represents-popped}
use flowkernel.Cache.{LatestSampleSlot}
use flowkernel.Platform.{Platform}
use flowkernel.Reactor.{CriticalSample, Handler, stop}
use flowkernel.Reactor.Events.{Event, Cycle, Drained, Wait}
use flowkernel.Reactor.Stats.{reset_stats}
use flowkernel.Reactor.Handlers.{IsIndexed}
use flowkernel.Reactor.Calls.{call_of, queue_calls, queue_calls-append, trace-dispatch}
use flowkernel.Reactor.Cycle.{await_keeps}
use flowkernel.Reactor.Arrivals.{comes_in, data_callback_holds, keeps_handlers, keeps_index}
use flowkernel.Reactor.Live.{
  LivePhase, resting, emptying, visiting, waiting, Live, LiveTurn, arrives, proceeds, wakes, halts,
  resets_all, begin_cycle, queue_round, slot_round, proceed, wake_up, live_turn, live,
}

module _ {p : Platform} where
  -- The frames that come into the queue in a run, in their order.
  abbrev pub arrived_at : LiveTurn → Live p → List CriticalSample
  arrived_at (arrives ctx key raw now_ms now) m = comes_in ctx raw now m.reactor
  arrived_at _ m = []

  abbrev pub arrived : List LiveTurn → Live p → List CriticalSample
  arrived [] m = []
  arrived (t ∷ turns) m = arrived_at t m ++ arrived turns (live_turn t m)

  -- From `items` in the queue, `more` arriving makes these calls and leaves what the queue holds.
  pub record Delivers (hs : List Handler) (index : List (ℕ × ℕ)) (items more : List CriticalSample)
      (m m' : Live p) : Type 0 where
    pub left : Fifo CriticalSample
    pub held : Represents 9 m'.reactor.critical_queue left
    pub same_handlers : m'.reactor.handlers ≡ hs
    pub same_index : m'.reactor.handler_index ≡ index
    pub calls :
        m'.queue_log ++ queue_calls index left.items
        ≡ m.queue_log ++ queue_calls index (items ++ more)

-- What holds of the frames in the queue goes on holding with more frames behind.
calls_behind :
    (index : List (ℕ × ℕ)) (before after : List Event) (items left more : List CriticalSample)
    (arrivals : List CriticalSample)
    → after ++ queue_calls index left ≡ before ++ queue_calls index (items ++ arrivals)
    → after ++ queue_calls index (left ++ more)
      ≡ before ++ queue_calls index (items ++ (arrivals ++ more))
calls_behind index before after items left more arrivals e =
    ap (λ t. after ++ t) (queue_calls-append index left more)
    ∙ sym (append_assoc after (queue_calls index left) (queue_calls index more))
    ∙ ap (λ t. t ++ queue_calls index more) e
    ∙ append_assoc before (queue_calls index (items ++ arrivals)) (queue_calls index more)
    ∙ ap (λ t. before ++ t) (sym (queue_calls-append index (items ++ arrivals) more))
    ∙ ap (λ t. before ++ queue_calls index t) (append_assoc items arrivals more)

module _ {p : Platform} (hs : List Handler) (index : List (ℕ × ℕ)) (ok : IsIndexed hs index) where
  -- A turn that leaves the queue and its log alone.
  idle_turn :
      (m m' : Live p) {f : Fifo CriticalSample}
      → Represents 9 m.reactor.critical_queue f
      → m.reactor.handlers ≡ hs
      → m.reactor.handler_index ≡ index
      → m'.reactor.critical_queue ≡ m.reactor.critical_queue
      → m'.reactor.handlers ≡ m.reactor.handlers
      → m'.reactor.handler_index ≡ m.reactor.handler_index
      → m'.queue_log ≡ m.queue_log
      → Delivers hs index f.items [] m m'
  idle_turn m m' {f} held eh ei q h i l = record {
    left = f;
    held = subst (λ t. Represents 9 t f) (sym q) held;
    same_handlers = h ∙ eh;
    same_index = i ∙ ei;
    calls =
        ap (λ t. t ++ queue_calls index f.items) l
        ∙ ap (λ t. m.queue_log ++ queue_calls index t) (sym (append-nil f.items));
  }

  queue_round-Delivers :
      (clock : ℕ → ℕ) (cy : Cycle p.Micros) (m : Live p) (items : List CriticalSample) {lost : ℕ}
      → Represents 9 m.reactor.critical_queue (record { items = items; lost = lost })
      → m.reactor.handlers ≡ hs
      → m.reactor.handler_index ≡ index
      → Delivers hs index items [] m (proceed clock (emptying cy) m)
  unfolding proceed queue_round
  queue_round-Delivers clock cy m [] held eh ei =
      rw (pop-empty held) (idle_turn m _ held eh ei refl refl refl refl)
  queue_round-Delivers clock cy m (x ∷ items) {lost} held eh ei =
      let r = m.reactor in
      let ok' : IsIndexed r.handlers r.handler_index = subst₂ IsIndexed (sym eh) (sym ei) ok in
      rw (pop-item held) (record {
        left = record { items = items; lost = lost };
        held = Represents-popped held;
        same_handlers = eh;
        same_index = ei;
        calls =
            ap (λ t. t ++ queue_calls index items)
              (trace-dispatch p.micros_between clock r.handlers r.handler_index ok' x _
                ∙ ap (λ i. m.queue_log ++ call_of (lookup x.handler_hash i) x.payload) ei)
            ∙ append_assoc m.queue_log (call_of (lookup x.handler_hash index) x.payload) _
            ∙ ap (λ t. m.queue_log ++ queue_calls index (x ∷ t)) (sym (append-nil items));
      })

  slot_round-Delivers :
      (clock : ℕ → ℕ) (entry : Option (ℕ × LatestSampleSlot)) (n : ℕ) (d : Drained p.Micros)
      (m : Live p) {f : Fifo CriticalSample}
      → Represents 9 m.reactor.critical_queue f
      → m.reactor.handlers ≡ hs
      → m.reactor.handler_index ≡ index
      → Delivers hs index f.items [] m (slot_round clock entry n d m)
  unfolding slot_round
  slot_round-Delivers clock none n d m held eh ei = idle_turn m _ held eh ei refl refl refl refl
  slot_round-Delivers clock (some (j, s)) n d m held eh ei =
      idle_turn m _ held eh ei refl refl refl refl

  proceed-Delivers :
      (clock : ℕ → ℕ) (phase : LivePhase p.Micros) (m : Live p) {f : Fifo CriticalSample}
      → Represents 9 m.reactor.critical_queue f
      → m.reactor.handlers ≡ hs
      → m.reactor.handler_index ≡ index
      → Delivers hs index f.items [] m (proceed clock phase m)
  unfolding proceed begin_cycle
  proceed-Delivers clock resting m {f} held eh ei =
      elim m.reactor.running
        as (λ b. Delivers hs index f.items [] m (if b then begin_cycle m else m)) [
          | true ↦ idle_turn m _ held eh ei refl refl refl refl
          | false ↦ idle_turn m _ held eh ei refl refl refl refl
        ]
  proceed-Delivers clock (emptying cy) m {f} held eh ei =
      queue_round-Delivers clock cy m f.items held eh ei
  proceed-Delivers clock (visiting n d) m held eh ei =
      slot_round-Delivers clock (get_elem? m.reactor.background_cache.slots n) n d m held eh ei
  proceed-Delivers clock waiting m held eh ei = idle_turn m _ held eh ei refl refl refl refl

  wake_up-Delivers :
      (w : Wait) (phase : LivePhase p.Micros) (m : Live p) {f : Fifo CriticalSample}
      → Represents 9 m.reactor.critical_queue f
      → m.reactor.handlers ≡ hs
      → m.reactor.handler_index ≡ index
      → Delivers hs index f.items [] m (wake_up w phase m)
  unfolding wake_up
  wake_up-Delivers w waiting m held eh ei =
      let (q, _, _, h, i, _) = await_keeps w m.reactor in idle_turn m _ held eh ei q h i refl
  wake_up-Delivers w resting m held eh ei = idle_turn m _ held eh ei refl refl refl refl
  wake_up-Delivers w (emptying cy) m held eh ei = idle_turn m _ held eh ei refl refl refl refl
  wake_up-Delivers w (visiting n d) m held eh ei = idle_turn m _ held eh ei refl refl refl refl

  turn-Delivers :
      (t : LiveTurn) (m : Live p) {f : Fifo CriticalSample}
      → Represents 9 m.reactor.critical_queue f
      → m.reactor.handlers ≡ hs
      → m.reactor.handler_index ≡ index
      → Delivers hs index f.items (arrived_at t m) m (live_turn t m)
  unfolding live_turn stop reset_stats
  turn-Delivers (arrives ctx key raw now_ms now) m {f} held eh ei =
      let (g, held', grown) = data_callback_holds ctx key raw now_ms now m.reactor held in
      record {
        left = g;
        held = held';
        same_handlers = keeps_handlers ctx key raw now_ms now m.reactor ∙ eh;
        same_index = keeps_index ctx key raw now_ms now m.reactor ∙ ei;
        calls = ap (λ t. m.queue_log ++ queue_calls index t) grown;
      }
  turn-Delivers (proceeds clock) m held eh ei = proceed-Delivers clock m.phase m held eh ei
  turn-Delivers (wakes w) m held eh ei = wake_up-Delivers w m.phase m held eh ei
  turn-Delivers halts m held eh ei = idle_turn m _ held eh ei refl refl refl refl
  turn-Delivers resets_all m held eh ei = idle_turn m _ held eh ei refl refl refl refl

  live-Delivers :
      (turns : List LiveTurn) (m : Live p) {f : Fifo CriticalSample}
      → Represents 9 m.reactor.critical_queue f
      → m.reactor.handlers ≡ hs
      → m.reactor.handler_index ≡ index
      → Delivers hs index f.items (arrived turns m) m (live turns m)
  unfolding live
  live-Delivers [] m held eh ei = idle_turn m m held eh ei refl refl refl refl
  live-Delivers (t ∷ turns) m {f} held eh ei =
      let first = turn-Delivers t m held eh ei in
      let rest =
        live-Delivers turns (live_turn t m) first.held first.same_handlers first.same_index in
      record {
        left = rest.left;
        held = rest.held;
        same_handlers = rest.same_handlers;
        same_index = rest.same_index;
        calls =
            rest.calls
            ∙ calls_behind index m.queue_log (live_turn t m).queue_log f.items first.left.items
                (arrived turns (live_turn t m)) (arrived_at t m) first.calls;
      }

module _ {p : Platform} where
  -- Whatever the thread of the event loop and the threads of the middleware do, and in whatever
  -- order: from a queue that holds `f` and a look-up of handlers that is in order, the calls made
  -- for frames, followed by those that the frames still in the queue will make, are the calls made
  -- before, followed by those of `f` and of the frames that came into the queue meanwhile, each
  -- once and in the order of their arrival. The samples may come, the reactor be stopped and its
  -- statistics be reset also within a cycle.
  pub live_in_order :
      (turns : List LiveTurn) (m : Live p) {f : Fifo CriticalSample}
      → Represents 9 m.reactor.critical_queue f
      → IsIndexed m.reactor.handlers m.reactor.handler_index
      → (g : Fifo CriticalSample) × Represents 9 (live turns m).reactor.critical_queue g
        × ((live turns m).queue_log ++ queue_calls m.reactor.handler_index g.items
            ≡ m.queue_log ++ queue_calls m.reactor.handler_index (f.items ++ arrived turns m))
  live_in_order turns m held ok =
      let d = live-Delivers m.reactor.handlers m.reactor.handler_index ok turns m held refl refl in
      (d.left, d.held, d.calls)
