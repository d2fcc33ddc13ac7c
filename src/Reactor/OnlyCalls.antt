-- ===== src/Reactor/OnlyCalls.antt =====
-- Traces with nothing but calls of handlers.
use flowkernel.Base.{ℕ, List, [], ◌∷◌, ◌++◌, Option, none, some}
use flowkernel.Base.Assoc.{lookup}
use flowkernel.Hash.{Bytes}
use flowkernel.Cache.{Sample}
use flowkernel.Reactor.{CriticalSample}
use flowkernel.Reactor.Events.{Event, called, bad_index, bad_slot}
use flowkernel.Reactor.Calls.{call_of, queue_calls, slot_calls}

-- Nothing but calls of handlers.
abbrev pub OnlyCalls : List Event → Type 0
OnlyCalls [] = Unit {0}
OnlyCalls (called idx payload ∷ trace) = OnlyCalls trace
OnlyCalls (bad_index idx ∷ trace) = ⊥
OnlyCalls (bad_slot ∷ trace) = ⊥

pub OnlyCalls-append : (xs ys : List Event) → OnlyCalls xs → OnlyCalls ys → OnlyCalls (xs ++ ys)
OnlyCalls-append [] ys h h' = h'
OnlyCalls-append (called idx payload ∷ xs) ys h h' = OnlyCalls-append xs ys h h'
OnlyCalls-append (bad_index idx ∷ xs) ys h h' = elim h [ ]
OnlyCalls-append (bad_slot ∷ xs) ys h h' = elim h [ ]

pub OnlyCalls-call_of :
    (o : Option ℕ) (payload : Bytes) (rest : List Event)
    → OnlyCalls rest
    → OnlyCalls (call_of o payload ++ rest)
OnlyCalls-call_of none payload rest h = h
OnlyCalls-call_of (some idx) payload rest h = h

pub OnlyCalls-queue_calls :
    (index : List (ℕ × ℕ)) (frames : List CriticalSample) → OnlyCalls (queue_calls index frames)
OnlyCalls-queue_calls index [] = tt
OnlyCalls-queue_calls index (cs ∷ frames) =
    OnlyCalls-call_of (lookup cs.handler_hash index) cs.payload (queue_calls index frames)
      (OnlyCalls-queue_calls index frames)

pub OnlyCalls-slot_calls :
    (index : List (ℕ × ℕ)) (xs : List Sample) → OnlyCalls (slot_calls index xs)
OnlyCalls-slot_calls index [] = tt
OnlyCalls-slot_calls index (x ∷ xs) =
    OnlyCalls-call_of (lookup x.handler_hash index) x.payload (slot_calls index xs)
      (OnlyCalls-slot_calls index xs)

pub OnlyCalls-front : (xs ys : List Event) → OnlyCalls (xs ++ ys) → OnlyCalls xs
OnlyCalls-front [] ys h = tt
OnlyCalls-front (called idx payload ∷ xs) ys h = OnlyCalls-front xs ys h
OnlyCalls-front (bad_index idx ∷ xs) ys h = elim h [ ]
OnlyCalls-front (bad_slot ∷ xs) ys h = elim h [ ]
