-- ===== src/Reactor/Arrivals.antt =====
-- What a sample that arrives does to the queue: which frame comes in, if one does.
use flowkernel.Base.{
  ℕ, ◌≡◌, refl, sym, ap, subst, ◌∙◌, List, [], ◌∷◌, ◌++◌, append-nil, Bool, true, false, not,
  length, Option-cases, Bool-cases, inl, inr, leb, ◌==◌, if◌then◌else◌,
}
use flowkernel.Hash.{Bytes}
use flowkernel.Mpsc.{Queue, push}
use flowkernel.Mpsc.Fifo.{Fifo, fifo_push}
use flowkernel.Mpsc.Represents.{Represents}
use flowkernel.Mpsc.Refine.{push_refines}
use flowkernel.Platform.{Platform}
use flowkernel.Reactor.{
  TopicPriority, critical, normal, background, CriticalSample, CallbackContext, Reactor,
  queue_capacity,
}
use flowkernel.Reactor.Callback.{robot_id, track_session, wake, enqueue, route, data_callback}
use flowkernel.Reactor.Unseen.{data_callback_unseen}
use flowkernel.Reactor.Enqueue.{frame}

-- The frame of a topic of this priority, if the queue takes it.
abbrev pub taken_in : TopicPriority → CriticalSample → Queue CriticalSample → List CriticalSample
taken_in background cs q = []
taken_in _ cs q = if (push queue_capacity q cs).0 then cs ∷ [] else []

-- The frame that comes into the queue with a sample: none for an empty sample and for one that the
-- verifier refuses.
abbrev pub comes_in : {p : Platform} → CallbackContext → Bytes → ℕ → Reactor p → List CriticalSample
comes_in {p} ctx raw now r =
    if length raw == 0
    then []
    else if not (p.verify raw)
    then []
    else taken_in ctx.priority (frame ctx raw now) r.critical_queue

fifo_push-items :
    (f : Fifo CriticalSample) (cs : CriticalSample)
    → (fifo_push 511 f cs).1.items ≡ f.items ++ (if (fifo_push 511 f cs).0 then cs ∷ [] else [])
unfolding fifo_push
fifo_push-items f cs = elim (Bool-cases (leb 511 (length f.items))) [
  | inl full ↦ rw full (sym (append-nil f.items))
  | inr room ↦ rw room
]

module _ {p : Platform} where
  -- The queue holds what it held, and the frames `more` behind.
  abbrev pub HoldsAlso : List CriticalSample → Fifo CriticalSample → Reactor p → Type 0
  HoldsAlso more f r =
      (g : Fifo CriticalSample) × Represents 9 r.critical_queue g × (g.items ≡ f.items ++ more)

  pub wake_keeps_queue :
      (t : TopicPriority) (pushed : Bool) (r : Reactor p)
      → (wake t pushed r).critical_queue ≡ r.critical_queue
  unfolding wake
  wake_keeps_queue critical true r = refl
  wake_keeps_queue critical false r = refl
  wake_keeps_queue normal pushed r = refl
  wake_keeps_queue background pushed r = refl

  enqueue_holds :
      (ctx : CallbackContext) (buf : Bytes) (now : ℕ) (r : Reactor p) {f : Fifo CriticalSample}
      → Represents 9 r.critical_queue f
      → HoldsAlso
          (if (push queue_capacity r.critical_queue (frame ctx buf now)).0
            then frame ctx buf now ∷ []
            else [])
          f
          (enqueue ctx buf now r)
  unfolding enqueue
  enqueue_holds ctx buf now r {f} held =
      let cs = frame ctx buf now in
      let (answer, next) = push_refines cs held in
      (
        (fifo_push 511 f cs).1,
        subst (λ q. Represents 9 q (fifo_push 511 f cs).1) (sym (wake_keeps_queue ctx.priority _ _))
            next,
        fifo_push-items f cs
            ∙ ap (λ (b : Bool). f.items ++ (if b then cs ∷ [] else [])) (sym answer),
      )

  route_holds :
      (ctx : CallbackContext) (buf : Bytes) (now : ℕ) (r : Reactor p) (t : TopicPriority)
      {f : Fifo CriticalSample}
      → ctx.priority ≡ t
      → Represents 9 r.critical_queue f
      → HoldsAlso (taken_in t (frame ctx buf now) r.critical_queue) f (route ctx buf now r)
  unfolding route
  route_holds ctx buf now r critical e held = rw (e, route) (enqueue_holds ctx buf now r held)
  route_holds ctx buf now r normal e held = rw (e, route) (enqueue_holds ctx buf now r held)
  route_holds ctx buf now r background {f} e held =
      rw (e, route) (f, held, sym (append-nil f.items))

  pub track_session_queue :
      (key : Bytes) (now_ms : ℕ) (r : Reactor p)
      → (track_session key now_ms r).critical_queue ≡ r.critical_queue
  unfolding track_session
  track_session_queue key now_ms r = elim (Option-cases (robot_id key)) [
    | inl e ↦ rw (e, track_session)
    | inr (id, e) ↦ rw (e, track_session)
  ]

  pub data_callback_holds :
      (ctx : CallbackContext) (key raw : Bytes) (now_ms now : ℕ) (r : Reactor p)
      {f : Fifo CriticalSample}
      → Represents 9 r.critical_queue f
      → HoldsAlso (comes_in ctx raw now r) f (data_callback ctx key raw now_ms now r)
  unfolding data_callback
  data_callback_holds ctx key raw now_ms now r {f} held = elim (Bool-cases (length raw == 0)) [
    | inl nothing ↦ rw nothing (f, held, sym (append-nil f.items))
    | inr bytes ↦ rw bytes (elim (Bool-cases (not (p.verify raw))) [
      | inl bad ↦ rw bad (f, held, sym (append-nil f.items))
      | inr good ↦
          let same = track_session_queue key now_ms r in
          rw good (
            subst
              (λ q.
                HoldsAlso (taken_in ctx.priority (frame ctx raw now) q) f
                  (route ctx raw now (track_session key now_ms r)))
              same
              (route_holds ctx raw now (track_session key now_ms r) ctx.priority refl
                (subst (λ q. Represents 9 q f) (sym same) held)))
    ])
  ]

  pub keeps_handlers :
      (ctx : CallbackContext) (key raw : Bytes) (now_ms now : ℕ) (r : Reactor p)
      → (data_callback ctx key raw now_ms now r).handlers ≡ r.handlers
  keeps_handlers =
      data_callback_unseen (λ r. r.handlers)
        (record {
          of_queue = λ r q. refl;
          of_wakeup = λ r e. refl;
          of_cache = λ r c. refl;
          of_sessions = λ r t. refl;
        })

  pub keeps_index :
      (ctx : CallbackContext) (key raw : Bytes) (now_ms now : ℕ) (r : Reactor p)
      → (data_callback ctx key raw now_ms now r).handler_index ≡ r.handler_index
  keeps_index =
      data_callback_unseen (λ r. r.handler_index)
        (record {
          of_queue = λ r q. refl;
          of_wakeup = λ r e. refl;
          of_cache = λ r c. refl;
          of_sessions = λ r t. refl;
        })
