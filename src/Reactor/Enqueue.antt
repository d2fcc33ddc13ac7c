-- ===== src/Reactor/Enqueue.antt =====
-- A frame for the queue: kept with a wake-up, or dropped without one.
use flowkernel.Base.{
  ℕ, ◌<◌, ◌≡◌, refl, sym, ap, subst, subst₂, ◌∙◌, [], ◌∷◌, ◌++◌, Bool, true, false, arith, add64,
  length,
}
use flowkernel.Hash.{Bytes}
use flowkernel.Mpsc.{push}
use flowkernel.Mpsc.Fifo.{Fifo}
use flowkernel.Mpsc.Represents.{Represents}
use flowkernel.Mpsc.Refine.{push_refines, fifo_push-full, fifo_push-room}
use flowkernel.Platform.{Platform}
use flowkernel.Reactor.{
  TopicPriority, critical, normal, background, CriticalSample, CallbackContext, Reactor,
  queue_capacity,
}
use flowkernel.Reactor.Callback.{wake, enqueue}

abbrev pub frame : CallbackContext → Bytes → ℕ → CriticalSample
frame ctx buf now = record { handler_hash = ctx.handler_hash; payload = buf; enqueue_time = now }

-- The eventfd after a frame of this priority has gone into the queue.
abbrev pub woken : (p : Platform) → TopicPriority → p.EventFd → p.EventFd
woken p critical e = p.fd_write e
woken p normal e = e
woken p background e = e

module _ {p : Platform} where
  wake_pushed :
      (t : TopicPriority) (r : Reactor p)
      → ((wake t true r).critical_queue ≡ r.critical_queue)
        × ((wake t true r).wakeup ≡ woken p t r.wakeup)
  unfolding wake
  wake_pushed critical r = (refl, refl)
  wake_pushed normal r = (refl, refl)
  wake_pushed background r = (refl, refl)

  wake_refused : (t : TopicPriority) (r : Reactor p) → wake t false r ≡ r
  unfolding wake
  wake_refused critical r = refl
  wake_refused normal r = refl
  wake_refused background r = refl

  -- With fewer than 511 frames in a queue in order a frame goes to its end, behind all of them
  -- whatever its priority and theirs, and the eventfd is written exactly for a CRITICAL one.
  pub enqueue-room :
      (ctx : CallbackContext) (buf : Bytes) (now : ℕ) (r : Reactor p) {f : Fifo CriticalSample}
      → Represents 9 r.critical_queue f
      → length f.items < 511
      → let r' = enqueue ctx buf now r in
        Represents 9 r'.critical_queue
          (record { items = f.items ++ frame ctx buf now ∷ []; lost = f.lost })
        × (r'.wakeup ≡ woken p ctx.priority r.wakeup)
  unfolding enqueue
  enqueue-room ctx buf now r {f} held room =
      let cs = frame ctx buf now in
      let (answer, next) = push_refines cs held in
      let kept = fifo_push-room 511 f cs room in
      let pushed : (push queue_capacity r.critical_queue cs).0 ≡ true =
        answer ∙ ap (λ (t : Bool × Fifo CriticalSample). t.0) kept in
      let after : Reactor p = record r {
        critical_queue = (push queue_capacity r.critical_queue cs).1;
      } in
      let (same, written) = wake_pushed ctx.priority after in
      rw pushed (
        subst₂ (Represents 9) (sym same) (ap (λ (t : Bool × Fifo CriticalSample). t.1) kept) next,
        written,
      )

  -- With 511 frames in a queue in order any frame for it is dropped, a CRITICAL one too: the frames
  -- in the queue stay, the drop is counted, and the eventfd is not written.
  pub enqueue-full :
      (ctx : CallbackContext) (buf : Bytes) (now : ℕ) (r : Reactor p) {f : Fifo CriticalSample}
      → Represents 9 r.critical_queue f
      → length f.items ≡ 511
      → let r' = enqueue ctx buf now r in
        Represents 9 r'.critical_queue (record { items = f.items; lost = add64 f.lost 1 })
        × (r'.wakeup ≡ r.wakeup)
  unfolding enqueue
  enqueue-full ctx buf now r {f} held full =
      let cs = frame ctx buf now in
      let (answer, next) = push_refines cs held in
      let kept = fifo_push-full 511 f cs (omega arith) in
      let refused : (push queue_capacity r.critical_queue cs).0 ≡ false =
        answer ∙ ap (λ (t : Bool × Fifo CriticalSample). t.0) kept in
      let after : Reactor p = record r {
        critical_queue = (push queue_capacity r.critical_queue cs).1;
      } in
      rw (refused, wake_refused ctx.priority after)
        (
          subst (Represents 9 after.critical_queue)
              (ap (λ (t : Bool × Fifo CriticalSample). t.1) kept) next,
          refl,
        )

  -- A CRITICAL frame that comes to a queue in order with fewer than 511 frames leaves the eventfd
  -- readable.
  pub enqueue_wakes :
      (ctx : CallbackContext) (buf : Bytes) (now : ℕ) (r : Reactor p) {f : Fifo CriticalSample}
      → Represents 9 r.critical_queue f
      → length f.items < 511
      → ctx.priority ≡ critical
      → p.readable (enqueue ctx buf now r).wakeup ≡ true
  enqueue_wakes ctx buf now r held room e =
      ap p.readable ((enqueue-room ctx buf now r held room).1 ∙ ap (λ t. woken p t r.wakeup) e)
      ∙ p.readable-fd_write r.wakeup
