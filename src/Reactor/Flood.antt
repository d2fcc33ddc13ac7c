-- ===== src/Reactor/Flood.antt =====
-- A cycle of `handle_events` that does not end: its loop over the queue goes on as long as frames
-- arrive, and neither a stop nor a frame in a slot is looked at meanwhile.
use flowkernel.Base.{
  ◌+◌, ℕ, ◌≡◌, ◌≢◌, ◌<◌, refl, ap, ◌∙◌, List, [], ◌∷◌, ◌++◌, Bool, true, false, not, length,
  length-append, arith, Bool-cases, inl, inr, ◌==◌,
}
use flowkernel.Hash.{Bytes}
use flowkernel.Mpsc.{Queue, push}
use flowkernel.Mpsc.Fifo.{Fifo}
use flowkernel.Mpsc.Represents.{Represents}
use flowkernel.Mpsc.Refine.{push_refines, fifo_push-room, pop-item, Represents-popped}
use flowkernel.Platform.{Platform}
use flowkernel.Reactor.{
  TopicPriority, critical, normal, background, CriticalSample, CallbackContext, Reactor,
  queue_capacity, stop,
}
use flowkernel.Reactor.Events.{Cycle}
use flowkernel.Reactor.Unseen.{data_callback_unseen}
use flowkernel.Reactor.Enqueue.{frame}
use flowkernel.Reactor.Arrivals.{taken_in, comes_in, data_callback_holds}
use flowkernel.Reactor.Offered.{for_queue, offered_at}
use flowkernel.Reactor.Live.{
  emptying, Live, LiveTurn, arrives, proceeds, wakes, halts, resets_all, queue_round, proceed,
  live_turn, live,
}

-- Before each round of the loop one of these turns is taken.
abbrev pub flood : (ℕ → ℕ) → List LiveTurn → List LiveTurn
flood clock [] = []
flood clock (t ∷ turns) = t ∷ proceeds clock ∷ flood clock turns

-- Each is the arrival of a sample with a frame for the queue.
abbrev pub AllOffer : Platform → List LiveTurn → Type 0
AllOffer p [] = Unit {0}
AllOffer p (t ∷ turns) = (offered_at p t ≢ []) × AllOffer p turns

taken_in-room :
    (t : TopicPriority) (cs : CriticalSample) (q : Queue CriticalSample)
    → for_queue t cs ≢ []
    → (push queue_capacity q cs).0 ≡ true
    → taken_in t cs q ≡ cs ∷ []
taken_in-room critical cs q h e = rw e
taken_in-room normal cs q h e = rw e
taken_in-room background cs q h e = absurd (h refl)

module _ {p : Platform} where
  comes_in-room :
      (ctx : CallbackContext) (key raw : Bytes) (now_ms now : ℕ) (r : Reactor p)
      {f : Fifo CriticalSample}
      → offered_at p (arrives ctx key raw now_ms now) ≢ []
      → Represents 9 r.critical_queue f
      → length f.items < 511
      → comes_in ctx raw now r ≡ frame ctx raw now ∷ []
  comes_in-room ctx key raw now_ms now r {f} h held room =
      let cs = frame ctx raw now in
      let pushed : (push queue_capacity r.critical_queue cs).0 ≡ true =
        (push_refines cs held).0
        ∙ ap (λ (t : Bool × Fifo CriticalSample). t.0) (fifo_push-room 511 f cs room) in
      elim (Bool-cases (length raw == 0)) [
        | inl nothing ↦ absurd (h (rw nothing refl))
        | inr bytes ↦ elim (Bool-cases (not (p.verify raw))) [
          | inl bad ↦ absurd (h (rw (bytes, bad) refl))
          | inr good ↦
              rw (bytes, good)
                (taken_in-room ctx.priority cs r.critical_queue (λ e. h (rw (bytes, good) e))
                  pushed)
        ]
      ]

  record Flooded (m : Live p) : Type 0 where
    cy : Cycle p.Micros
    in_loop : m.phase ≡ emptying cy
    f : Fifo CriticalSample
    held : Represents 9 m.reactor.critical_queue f
    room : length f.items < 511

  -- A round with a frame in the queue.
  round_stays :
      (clock : ℕ → ℕ) (m : Live p) {cy : Cycle p.Micros} (items : List CriticalSample) {lost : ℕ}
      → m.phase ≡ emptying cy
      → Represents 9 m.reactor.critical_queue (record { items = items; lost = lost })
      → 0 < length items
      → length items < 512
      → let m' = proceed clock m.phase m in
        Flooded m' × (m'.slot_log ≡ m.slot_log) × (m'.reactor.running ≡ m.reactor.running)
  unfolding proceed queue_round
  round_stays clock m [] at held some_frame few = absurd (omega arith)
  round_stays clock m (x ∷ items) {lost} at held some_frame few =
      rw (at, pop-item held)
        (
          record {
            cy = _;
            in_loop = refl;
            f = record { items = items; lost = lost };
            held = Represents-popped held;
            room = omega arith;
          },
          refl,
          refl,
        )

  round-Flooded :
      (clock : ℕ → ℕ) (t : LiveTurn) (m : Live p)
      → offered_at p t ≢ []
      → Flooded m
      → let m' = live_turn (proceeds clock) (live_turn t m) in
        Flooded m' × (m'.slot_log ≡ m.slot_log) × (m'.reactor.running ≡ m.reactor.running)
  unfolding live_turn
  round-Flooded clock (arrives ctx key raw now_ms now) m h s =
      let (g, held, grown) = data_callback_holds ctx key raw now_ms now m.reactor s.held in
      let one = comes_in-room ctx key raw now_ms now m.reactor h s.held s.room in
      let more : length g.items ≡ length s.f.items + 1 =
        ap length (grown ∙ ap (λ xs. s.f.items ++ xs) one)
        ∙ length-append s.f.items (frame ctx raw now ∷ []) in
      let running =
        data_callback_unseen (λ (r : Reactor p). r.running)
          (record {
            of_queue = λ r q. refl;
            of_wakeup = λ r e. refl;
            of_cache = λ r c. refl;
            of_sessions = λ r t. refl;
          })
          ctx key raw now_ms now m.reactor in
      let (s', log, same) =
        round_stays clock (live_turn (arrives ctx key raw now_ms now) m) g.items s.in_loop held
          (omega (arith, more)) (omega (arith, more, s.room)) in
      (s', log, same ∙ running)
  round-Flooded clock (proceeds c) m h s = absurd (h refl)
  round-Flooded clock (wakes w) m h s = absurd (h refl)
  round-Flooded clock halts m h s = absurd (h refl)
  round-Flooded clock resets_all m h s = absurd (h refl)

  flood-Flooded :
      (clock : ℕ → ℕ) (turns : List LiveTurn) (m : Live p)
      → AllOffer p turns
      → Flooded m
      → let m' = live (flood clock turns) m in
        Flooded m' × (m'.slot_log ≡ m.slot_log) × (m'.reactor.running ≡ m.reactor.running)
  unfolding live
  flood-Flooded clock [] m h s = (s, refl, refl)
  flood-Flooded clock (t ∷ turns) m (offers, rest) s =
      let (s1, log1, run1) = round-Flooded clock t m offers s in
      let (s2, log2, run2) =
        flood-Flooded clock turns (live_turn (proceeds clock) (live_turn t m)) rest s1 in
      (s2, log2 ∙ log1, run2 ∙ run1)

  -- The thread is in the loop over the queue, which is in order and not full, and the reactor is
  -- stopped. If from then on a valid sample of a CRITICAL or NORMAL topic arrives before each round,
  -- then after any number of rounds the thread is still in that loop, though the reactor is marked
  -- as stopped, and no handler has been called for a frame of a slot.
  pub stop_starves :
      (clock : ℕ → ℕ) (turns : List LiveTurn) (m : Live p) {cy : Cycle p.Micros}
      {f : Fifo CriticalSample}
      → m.phase ≡ emptying cy
      → Represents 9 m.reactor.critical_queue f
      → length f.items < 511
      → AllOffer p turns
      → let m' = live (halts ∷ flood clock turns) m in
        (cy' : Cycle p.Micros) × (m'.phase ≡ emptying cy')
        × (m'.reactor.running ≡ false)
        × (m'.slot_log ≡ m.slot_log)
  unfolding live live_turn stop
  stop_starves clock turns m {cy} {f} at held room h =
      let (s, log, run) =
        flood-Flooded clock turns (live_turn halts m) h
          (record { cy = cy; in_loop = at; f = f; held = held; room = room }) in
      (s.cy, s.in_loop, run, log)
