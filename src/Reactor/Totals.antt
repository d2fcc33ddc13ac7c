-- ===== src/Reactor/Totals.antt =====
-- Calls of handlers and frames, counted: what the statistics of the queue are measured against.
use flowkernel.Base.{
  ℕ, ◌+◌, ◌≡◌, ◌≢◌, refl, ap, List, [], ◌∷◌, ◌++◌, Option, none, some, arith, length, length-append,
}
use flowkernel.Base.Assoc.{lookup}
use flowkernel.Hash.{Bytes}
use flowkernel.Reactor.{TopicPriority, critical, normal, background, CriticalSample, Handler}
use flowkernel.Reactor.Events.{Event}
use flowkernel.Reactor.Handlers.{IsIndexed, indexed_handler}
use flowkernel.Reactor.Calls.{call_of, queue_calls}
use flowkernel.Reactor.Counts.{one_critical, one_other}
use flowkernel.Reactor.Offered.{Shuffle, neither, into_first, into_second}
use flowkernel.Reactor.Tally.{calls_weighed}
use flowkernel.Reactor.Live.{LiveTurn, resets_all}

-- Nobody resets the statistics.
abbrev pub NoResets : List LiveTurn → Type 0
NoResets [] = Unit {0}
NoResets (resets_all ∷ turns) = ⊥
NoResets (_ ∷ turns) = NoResets turns

-- Each frame is of a topic with a handler.
abbrev pub AllHandled : List (ℕ × ℕ) → List CriticalSample → Type 0
AllHandled index [] = Unit {0}
AllHandled index (cs ∷ frames) = (lookup cs.handler_hash index ≢ none) × AllHandled index frames

pub length-Shuffle :
    {A : Type 0} {xs ys zs : List A} → Shuffle xs ys zs → length zs ≡ length xs + length ys
length-Shuffle neither = refl
length-Shuffle (into_first s) = omega (arith, length-Shuffle s)
length-Shuffle (into_second s) = omega (arith, length-Shuffle s)

pub Shuffle-AllHandled :
    (index : List (ℕ × ℕ)) {xs ys zs : List CriticalSample}
    → Shuffle xs ys zs
    → AllHandled index zs
    → AllHandled index xs
Shuffle-AllHandled index neither h = tt
Shuffle-AllHandled index (into_first s) (here, rest) = (here, Shuffle-AllHandled index s rest)
Shuffle-AllHandled index (into_second s) (here, rest) = Shuffle-AllHandled index s rest

length-call_of :
    (o : Option ℕ) (payload : Bytes) (rest : List Event)
    → o ≢ none
    → length (call_of o payload ++ rest) ≡ 1 + length rest
length-call_of none payload rest h = absurd (h refl)
length-call_of (some idx) payload rest h = omega arith

pub length-queue_calls :
    (index : List (ℕ × ℕ)) (frames : List CriticalSample)
    → AllHandled index frames
    → length (queue_calls index frames) ≡ length frames
length-queue_calls index [] h = refl
length-queue_calls index (cs ∷ frames) (here, rest) = omega (
  arith,
  length-call_of (lookup cs.handler_hash index) cs.payload (queue_calls index frames) here,
  length-queue_calls index frames rest,
)

pub calls_weighed-append :
    (w : Option Handler → ℕ) (hs : List Handler) (xs ys : List Event)
    → calls_weighed w hs (xs ++ ys) ≡ calls_weighed w hs xs + calls_weighed w hs ys
calls_weighed-append w hs [] ys = omega arith
calls_weighed-append w hs (e ∷ xs) ys = omega (arith, calls_weighed-append w hs xs ys)

one_priority :
    (t : TopicPriority)
    → (path : Bytes) (hash : ℕ)
    → let h : Option Handler = some (record { path = path; path_hash = hash; priority = t }) in
      one_critical h + one_other h ≡ 1
one_priority critical path hash = refl
one_priority normal path hash = refl
one_priority background path hash = refl

module _ (hs : List Handler) (index : List (ℕ × ℕ)) (ok : IsIndexed hs index) where
  -- Each call that frames make is counted under one of both priorities.
  abbrev pub both : List Event → ℕ
  both log = calls_weighed one_critical hs log + calls_weighed one_other hs log

  both-call_of :
      (hash : ℕ) (payload : Bytes) (o : Option ℕ)
      → lookup hash index ≡ o
      → both (call_of o payload) ≡ length (call_of o payload)
  both-call_of hash payload none e = refl
  both-call_of hash payload (some idx) e =
      let (h, at, _) = indexed_handler hs index ok e in
      rw at (omega (arith, one_priority h.priority h.path h.path_hash))

  both-queue_calls :
      (frames : List CriticalSample)
      → both (queue_calls index frames) ≡ length (queue_calls index frames)
  both-queue_calls [] = refl
  both-queue_calls (cs ∷ frames) =
      let first = call_of (lookup cs.handler_hash index) cs.payload in
      let rest = queue_calls index frames in
      omega (
        arith,
        calls_weighed-append one_critical hs first rest,
        calls_weighed-append one_other hs first rest,
        both-call_of cs.handler_hash cs.payload (lookup cs.handler_hash index) refl,
        both-queue_calls frames,
        length-append first rest,
      )

  -- A log that the calls of `left` complete to those of `taken`.
  pub both-log :
      (log : List Event) (left taken : List CriticalSample)
      → log ++ queue_calls index left ≡ queue_calls index taken
      → both log + length (queue_calls index left) ≡ length (queue_calls index taken)
  both-log log left taken e =
      let c = calls_weighed-append one_critical hs log (queue_calls index left) in
      let n = calls_weighed-append one_other hs log (queue_calls index left) in
      let whole : both (log ++ queue_calls index left) ≡ both (queue_calls index taken) =
        ap both e in
      omega (arith, c, n, whole, both-queue_calls left, both-queue_calls taken)
