-- ===== src/Reactor/Offered.antt =====
-- What becomes of every sample for the queue: handled, waiting or counted as dropped.
use flowkernel.Base.{
  ℕ, List, [], ◌∷◌, ◌++◌, Bool, true, false, not, length, Bool-cases, inl, inr, ◌==◌, if◌then◌else◌,
}
use flowkernel.Hash.{Bytes}
use flowkernel.Mpsc.{Queue, push}
use flowkernel.Platform.{Platform}
use flowkernel.Reactor.{
  TopicPriority, critical, normal, background, CriticalSample, CallbackContext, Reactor,
  queue_capacity,
}
use flowkernel.Reactor.Enqueue.{frame}
use flowkernel.Reactor.Arrivals.{taken_in, comes_in}
use flowkernel.Reactor.Delivery.{arrived_at, arrived}
use flowkernel.Reactor.Live.{Live, LiveTurn, arrives, proceeds, wakes, halts, resets_all, live_turn}

-- The list `zs` is `xs` and `ys`, each in its order, shuffled.
pub data Shuffle {A : Type 0} : List A → List A → List A → Type 0 where
  neither : Shuffle [] [] []
  into_first : {x : A} {xs ys zs : List A} → Shuffle xs ys zs → Shuffle (x ∷ xs) ys (x ∷ zs)
  into_second : {y : A} {xs ys zs : List A} → Shuffle xs ys zs → Shuffle xs (y ∷ ys) (y ∷ zs)

abbrev pub for_queue : TopicPriority → CriticalSample → List CriticalSample
for_queue background cs = []
for_queue _ cs = cs ∷ []

-- The frame that a sample offers to the queue: none for an empty one, for one that the verifier
-- refuses, and for one of a BACKGROUND topic.
abbrev pub offered_at : Platform → LiveTurn → List CriticalSample
offered_at p (arrives ctx key raw now_ms now) =
    if length raw == 0
    then []
    else if not (p.verify raw)
    then []
    else for_queue ctx.priority (frame ctx raw now)
offered_at p _ = []

abbrev pub offered : Platform → List LiveTurn → List CriticalSample
offered p [] = []
offered p (t ∷ turns) = offered_at p t ++ offered p turns

-- Those that the queue refuses.
abbrev pub left_out : TopicPriority → CriticalSample → Queue CriticalSample → List CriticalSample
left_out background cs q = []
left_out _ cs q = if (push queue_capacity q cs).0 then [] else cs ∷ []

Shuffle-asked :
    (taken : Bool) (cs : CriticalSample) {xs ys zs : List CriticalSample}
    → Shuffle xs ys zs
    → Shuffle
        ((if taken then cs ∷ [] else []) ++ xs)
        ((if taken then [] else cs ∷ []) ++ ys)
        (cs ∷ zs)
Shuffle-asked true cs s = into_first s
Shuffle-asked false cs s = into_second s

Shuffle-routed :
    (t : TopicPriority) (cs : CriticalSample) (q : Queue CriticalSample)
    {xs ys zs : List CriticalSample}
    → Shuffle xs ys zs
    → Shuffle (taken_in t cs q ++ xs) (left_out t cs q ++ ys) (for_queue t cs ++ zs)
Shuffle-routed critical cs q s = Shuffle-asked (push queue_capacity q cs).0 cs s
Shuffle-routed normal cs q s = Shuffle-asked (push queue_capacity q cs).0 cs s
Shuffle-routed background cs q s = s

module _ {p : Platform} where
  abbrev pub refused_in : CallbackContext → Bytes → ℕ → Reactor p → List CriticalSample
  refused_in ctx raw now r =
      if length raw == 0
      then []
      else if not (p.verify raw)
      then []
      else left_out ctx.priority (frame ctx raw now) r.critical_queue

  abbrev pub refused_at : LiveTurn → Live p → List CriticalSample
  refused_at (arrives ctx key raw now_ms now) m = refused_in ctx raw now m.reactor
  refused_at _ m = []

  abbrev pub refused : List LiveTurn → Live p → List CriticalSample
  refused [] m = []
  refused (t ∷ turns) m = refused_at t m ++ refused turns (live_turn t m)

  -- What is offered is taken in or refused.
  Shuffle-arrives :
      (ctx : CallbackContext) (key raw : Bytes) (now_ms now : ℕ) (r : Reactor p)
      {xs ys zs : List CriticalSample}
      → Shuffle xs ys zs
      → Shuffle
          (comes_in ctx raw now r ++ xs)
          (refused_in ctx raw now r ++ ys)
          (offered_at p (arrives ctx key raw now_ms now) ++ zs)
  Shuffle-arrives ctx key raw now_ms now r s = elim (Bool-cases (length raw == 0)) [
    | inl nothing ↦ rw nothing s
    | inr bytes ↦ rw bytes (elim (Bool-cases (not (p.verify raw))) [
      | inl bad ↦ rw bad s
      | inr good ↦ rw good (Shuffle-routed ctx.priority (frame ctx raw now) r.critical_queue s)
    ])
  ]

  Shuffle-turn :
      (t : LiveTurn) (m : Live p) {xs ys zs : List CriticalSample}
      → Shuffle xs ys zs
      → Shuffle (arrived_at t m ++ xs) (refused_at t m ++ ys) (offered_at p t ++ zs)
  Shuffle-turn (arrives ctx key raw now_ms now) m s =
      Shuffle-arrives ctx key raw now_ms now m.reactor s
  Shuffle-turn (proceeds clock) m s = s
  Shuffle-turn (wakes w) m s = s
  Shuffle-turn halts m s = s
  Shuffle-turn resets_all m s = s

  pub Shuffle-offered :
      (turns : List LiveTurn) (m : Live p)
      → Shuffle (arrived turns m) (refused turns m) (offered p turns)
  Shuffle-offered [] m = neither
  Shuffle-offered (t ∷ turns) m = Shuffle-turn t m (Shuffle-offered turns (live_turn t m))
