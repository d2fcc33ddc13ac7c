-- ===== src/Reactor/Prompt.antt =====
-- How soon the frames that wait in the queue are handled once a cycle empties it.
use flowkernel.Base.{
  ℕ, suc, ◌≡◌, refl, sym, ap, subst, subst₂, ◌∙◌, List, [], ◌∷◌, ◌++◌, append-nil, append_assoc,
  length, arith,
}
use flowkernel.Base.Assoc.{lookup}
use flowkernel.Mpsc.Represents.{Represents}
use flowkernel.Mpsc.Refine.{pop-item, Represents-popped}
use flowkernel.Platform.{Platform}
use flowkernel.Reactor.{CriticalSample, Handler, Reactor, stop}
use flowkernel.Reactor.Callback.{data_callback}
use flowkernel.Reactor.Events.{Cycle}
use flowkernel.Reactor.Stats.{reset_stats}
use flowkernel.Reactor.Handlers.{IsIndexed}
use flowkernel.Reactor.Calls.{call_of, queue_calls, trace-dispatch}
use flowkernel.Reactor.Arrivals.{data_callback_holds, keeps_handlers, keeps_index}
use flowkernel.Reactor.Live.{
  emptying, Live, LiveTurn, arrives, proceeds, wakes, halts, resets_all, queue_round, proceed,
  wake_up, live_turn, live,
}

-- The rounds that the thread of the event loop goes in these turns.
abbrev pub rounds : List LiveTurn → ℕ
rounds [] = 0
rounds (proceeds clock ∷ turns) = suc (rounds turns)
rounds (arrives ctx key raw now_ms now ∷ turns) = rounds turns
rounds (wakes w ∷ turns) = rounds turns
rounds (halts ∷ turns) = rounds turns
rounds (resets_all ∷ turns) = rounds turns

module _ {p : Platform} (hs : List Handler) (index : List (ℕ × ℕ)) (ok : IsIndexed hs index) where
  -- The thread is in the loop over the queue, which holds `items`.
  record Emptying (items : List CriticalSample) (m : Live p) : Type 0 where
    cy : Cycle p.Micros
    in_loop : m.phase ≡ emptying cy
    lost : ℕ
    held : Represents 9 m.reactor.critical_queue (record { items = items; lost = lost })
    same_handlers : m.reactor.handlers ≡ hs
    same_index : m.reactor.handler_index ≡ index

  round_handles :
      (clock : ℕ → ℕ) (m : Live p) (x : CriticalSample) (items : List CriticalSample)
      → Emptying (x ∷ items) m
      → Emptying items (proceed clock m.phase m)
        × ((proceed clock m.phase m).queue_log
            ≡ m.queue_log ++ call_of (lookup x.handler_hash index) x.payload)
  unfolding proceed queue_round
  round_handles clock m x items s =
      let r = m.reactor in
      let ok' : IsIndexed r.handlers r.handler_index =
        subst₂ IsIndexed (sym s.same_handlers) (sym s.same_index) ok in
      rw (s.in_loop, pop-item s.held)
        (
          record {
            cy = _;
            in_loop = refl;
            lost = s.lost;
            held = Represents-popped s.held;
            same_handlers = s.same_handlers;
            same_index = s.same_index;
          },
          trace-dispatch p.micros_between clock r.handlers r.handler_index ok' x _
              ∙ ap (λ i. m.queue_log ++ call_of (lookup x.handler_hash i) x.payload) s.same_index,
        )

  still-Emptying :
      (m : Live p) (r' : Reactor p) {items : List CriticalSample}
      → Emptying items m
      → r'.critical_queue ≡ m.reactor.critical_queue
      → r'.handlers ≡ m.reactor.handlers
      → r'.handler_index ≡ m.reactor.handler_index
      → Emptying items (record m { reactor = r' })
  still-Emptying m r' {items} s q h i = record {
    cy = s.cy;
    in_loop = s.in_loop;
    lost = s.lost;
    held = subst (λ t. Represents 9 t (record { items = items; lost = s.lost })) (sym q) s.held;
    same_handlers = h ∙ s.same_handlers;
    same_index = i ∙ s.same_index;
  }

  handled :
      (turns : List LiveTurn) (m : Live p) (first rest : List CriticalSample)
      → Emptying (first ++ rest) m
      → rounds turns ≡ length first
      → (live turns m).queue_log ≡ m.queue_log ++ queue_calls index first
  unfolding live live_turn wake_up stop reset_stats
  handled [] m [] rest s n = sym (append-nil m.queue_log)
  handled [] m (x ∷ first) rest s n = absurd (omega (arith, n))
  handled (proceeds clock ∷ turns) m [] rest s n = absurd (omega (arith, n))
  handled (proceeds clock ∷ turns) m (x ∷ first) rest s n =
      let (s', log) = round_handles clock m x (first ++ rest) s in
      handled turns (proceed clock m.phase m) first rest s' (omega (arith, n))
      ∙ ap (λ t. t ++ queue_calls index first) log
      ∙ append_assoc m.queue_log (call_of (lookup x.handler_hash index) x.payload)
          (queue_calls index first)
  handled (arrives ctx key raw now_ms now ∷ turns) m first rest s n =
      let (g, held, grown) = data_callback_holds ctx key raw now_ms now m.reactor s.held in
      handled turns (live_turn (arrives ctx key raw now_ms now) m) first _
        (record {
          cy = s.cy;
          in_loop = s.in_loop;
          lost = g.lost;
          held =
              subst
                (λ (xs : List CriticalSample).
                  Represents 9 (data_callback ctx key raw now_ms now m.reactor).critical_queue
                    (record { items = xs; lost = g.lost }))
                (grown ∙ append_assoc first rest _) held;
          same_handlers = keeps_handlers ctx key raw now_ms now m.reactor ∙ s.same_handlers;
          same_index = keeps_index ctx key raw now_ms now m.reactor ∙ s.same_index;
        })
        n
  handled (wakes w ∷ turns) m first rest s n =
      ap (λ (t : Live p). (live turns t).queue_log) (ap (λ phase. wake_up w phase m) s.in_loop)
      ∙ handled turns m first rest s n
  handled (halts ∷ turns) m first rest s n =
      handled turns (live_turn halts m) first rest
        (still-Emptying m (stop m.reactor) s refl refl refl) n
  handled (resets_all ∷ turns) m first rest s n =
      handled turns (live_turn resets_all m) first rest
        (still-Emptying m (reset_stats m.reactor) s refl refl refl) n

module _ {p : Platform} where
  -- A thread that is in the loop over the queue, which holds `first` and `rest`, of a reactor whose
  -- look-up of handlers is in order, has after as many rounds as `first` has frames called the
  -- handlers for these, in their order, and for no other frame of the queue, whatever samples
  -- arrive and whether the reactor is stopped or its statistics are reset meanwhile: what arrives
  -- later delays nothing that was there.
  pub handled_in_time :
      (turns : List LiveTurn) (m : Live p) {cy : Cycle p.Micros} (first rest : List CriticalSample)
      {lost : ℕ}
      → m.phase ≡ emptying cy
      → Represents 9 m.reactor.critical_queue (record { items = first ++ rest; lost = lost })
      → IsIndexed m.reactor.handlers m.reactor.handler_index
      → rounds turns ≡ length first
      → (live turns m).queue_log ≡ m.queue_log ++ queue_calls m.reactor.handler_index first
  handled_in_time turns m {cy} first rest {lost} in_loop held ok n =
      handled m.reactor.handlers m.reactor.handler_index ok turns m first rest
        (record {
          cy = cy;
          in_loop = in_loop;
          lost = lost;
          held = held;
          same_handlers = refl;
          same_index = refl;
        })
        n
