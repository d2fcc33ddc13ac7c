-- ===== src/Reactor/Dispatch.antt =====
-- The loop over the queue: it ends, and dispatches each frame once, in order.
use flowkernel.Base.{
  ℕ, zero, suc, ◌+◌, ◌^◌, ◌<◌, ◌≡◌, refl, sym, ap, subst, ◌%◌, ◌∙◌, List, [], ◌∷◌, ◌++◌, Option,
  none, some, arith, length, get_elem?, set,
}
use flowkernel.Base.Assoc.{lookup}
use flowkernel.Mpsc.{Queue, Popped, empty, item, fault, pop}
use flowkernel.Mpsc.Fifo.{Fifo}
use flowkernel.Mpsc.Represents.{Represents}
use flowkernel.Mpsc.Refine.{pop-empty, pop-item, Represents-popped}
use flowkernel.Reactor.{
  TopicPriority, critical, normal, background, CriticalSample, Handler, queue_capacity,
}
use flowkernel.Reactor.Events.{
  bad_slot, Cycle, count_frame, call_handler, dispatch_to, dispatch, drain_queue,
}

abbrev pub holding : {A : Type 0} → List A → ℕ → Fifo A
holding items lost = record { items = items; lost = lost }

module _ {L : Type 0} (micros : ℕ → ℕ → L) (clock : ℕ → ℕ) (handlers : List Handler)
    (index : List (ℕ × ℕ)) where
  abbrev with_queue : Queue CriticalSample → Cycle L → Cycle L
  with_queue q cy = record cy { queue = q }

  count_frame-with_queue :
      (q : Queue CriticalSample) (t : TopicPriority) (cy : Cycle L)
      → with_queue q (count_frame t cy) ≡ count_frame t (with_queue q cy)
  unfolding count_frame
  count_frame-with_queue q critical cy = refl
  count_frame-with_queue q normal cy = refl
  count_frame-with_queue q background cy = refl

  call_handler-with_queue :
      (q : Queue CriticalSample) (idx : ℕ) (h : Option Handler) (cs : CriticalSample) (cy : Cycle L)
      → with_queue q (call_handler micros clock handlers index idx h cs cy)
        ≡ call_handler micros clock handlers index idx h cs (with_queue q cy)
  unfolding call_handler
  call_handler-with_queue q idx none cs cy = refl
  call_handler-with_queue q idx (some h) cs cy = count_frame-with_queue q h.priority _

  dispatch_to-with_queue :
      (q : Queue CriticalSample) (o : Option ℕ) (cs : CriticalSample) (cy : Cycle L)
      → with_queue q (dispatch_to micros clock handlers index o cs cy)
        ≡ dispatch_to micros clock handlers index o cs (with_queue q cy)
  unfolding dispatch_to
  dispatch_to-with_queue q none cs cy = refl
  dispatch_to-with_queue q (some idx) cs cy =
      call_handler-with_queue q idx (get_elem? handlers idx) cs cy

  dispatch-with_queue :
      (q : Queue CriticalSample) (cs : CriticalSample) (cy : Cycle L)
      → with_queue q (dispatch micros clock handlers index cs cy)
        ≡ dispatch micros clock handlers index cs (with_queue q cy)
  unfolding dispatch
  dispatch-with_queue q cs cy = dispatch_to-with_queue q (lookup cs.handler_hash index) cs cy

  -- Every frame of a list dispatched, in order.
  unfoldable pub dispatch_all : List CriticalSample → Cycle L → Cycle L
  dispatch_all [] cy = cy
  dispatch_all (cs ∷ rest) cy = dispatch_all rest (dispatch micros clock handlers index cs cy)

  dispatch_all-with_queue :
      (items : List CriticalSample) (q : Queue CriticalSample) (cy : Cycle L)
      → with_queue q (dispatch_all items cy) ≡ dispatch_all items (with_queue q cy)
  unfolding dispatch_all
  dispatch_all-with_queue [] q cy = refl
  dispatch_all-with_queue (cs ∷ rest) q cy =
      dispatch_all-with_queue rest q (dispatch micros clock handlers index cs cy)
      ∙ ap (dispatch_all rest) (dispatch-with_queue q cs cy)

  pub queue-dispatch :
      (cs : CriticalSample) (cy : Cycle L)
      → (dispatch micros clock handlers index cs cy).queue ≡ cy.queue
  queue-dispatch cs cy = sym (ap (λ (t : Cycle L). t.queue) (dispatch-with_queue cy.queue cs cy))

  pub queue-dispatch_all :
      (items : List CriticalSample) (cy : Cycle L) → (dispatch_all items cy).queue ≡ cy.queue
  queue-dispatch_all items cy =
      sym (ap (λ (t : Cycle L). t.queue) (dispatch_all-with_queue items cy.queue cy))

  -- One round of the loop, by what `pop` returns.
  abbrev pub after_pop : ℕ → Cycle L → Popped CriticalSample × Queue CriticalSample → Cycle L
  after_pop fuel cy (x, q) = elim x [
    | empty ↦ cy
    | fault ↦ record cy { trace = cy.trace ++ bad_slot ∷ [] }
    | item cs ↦
        drain_queue micros clock handlers index fuel
          (dispatch micros clock handlers index cs (with_queue q cy))
  ]

  pub drain_queue-suc :
      (fuel : ℕ) (cy : Cycle L)
      → drain_queue micros clock handlers index (suc fuel) cy
        ≡ after_pop fuel cy (pop queue_capacity cy.queue)
  unfolding drain_queue
  drain_queue-suc fuel cy = refl

  -- With fuel above the number of frames the loop ends on the empty queue, having dispatched each
  -- frame once, oldest first.
  pub drain_queue_lem :
      (items : List CriticalSample) (fuel : ℕ) (cy : Cycle L) {lost : ℕ}
      → Represents 9 cy.queue (holding items lost)
      → length items < fuel
      → (q : Queue CriticalSample) × Represents 9 q (holding [] lost)
        × (drain_queue micros clock handlers index fuel cy ≡ dispatch_all items (with_queue q cy))
  unfolding dispatch_all
  drain_queue_lem items zero cy r h = absurd (omega arith)
  drain_queue_lem [] (suc fuel) cy r h =
      (cy.queue, r, drain_queue-suc fuel cy ∙ ap (after_pop fuel cy) (pop-empty r))
  drain_queue_lem (cs ∷ rest) (suc fuel) cy {lost} r h =
      let q1 : Queue CriticalSample = record cy.queue {
        buffer = set cy.queue.buffer cy.queue.head none;
        head = (cy.queue.head + 1) % 2 ^ 9;
      } in
      let next = dispatch micros clock handlers index cs (with_queue q1 cy) in
      let held =
        subst (λ t. Represents 9 t (holding rest lost)) (sym (queue-dispatch cs (with_queue q1 cy)))
          (Represents-popped r) in
      let (q, left, same) = drain_queue_lem rest fuel next {lost = lost} held (omega arith) in
      (
        q,
        left,
        drain_queue-suc fuel cy
            ∙ ap (after_pop fuel cy) (pop-item r)
            ∙ same
            ∙ ap (dispatch_all rest) (dispatch-with_queue q cs (with_queue q1 cy)),
      )
