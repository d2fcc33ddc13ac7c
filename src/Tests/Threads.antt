-- ===== src/Tests/Threads.antt =====
-- Two producers and the consumer on a ring of two slots.
use flowkernel.Base.{◌≡◌, refl, some, ℕ, ◌-◌, ◌^◌, List, [], ◌∷◌, arith}
use flowkernel.Mpsc.{new_queue, next_index}
use flowkernel.Mpsc.Progress.{Reaches, calls_end}
use flowkernel.Mpsc.Races.{
  WritesFree, ReadsLive, AreApart, producer_slot, consumer_slot, slots_safe,
}
use flowkernel.Mpsc.Threads.{
  outside, roomy, idle, at_head, Machine, after_turns, turn, enter, produce, take_turn, Turn,
  enters, produces, consumes, new_machine, interleave,
}
use flowkernel.Mpsc.Interleave.{IsFifoRun}
use flowkernel.Mpsc.Consume.{interleave-IsFifoRun}

-- The second producer spins, then finds the ring full while the consumer is moving the first item.
abbrev turns : List (Turn ℕ)
turns =
    enters 7
    ∷ produces
    ∷ enters 8
    ∷ produces
    ∷ produces
    ∷ produces
    ∷ produces
    ∷ consumes
    ∷ consumes
    ∷ consumes
    ∷ enters 8
    ∷ produces
    ∷ produces
    ∷ consumes
    ∷ produces
    ∷ produces
    ∷ []

interleave-IsFifoRun_example :
    IsFifoRun (2 ^ 1 - 1) [] (interleave (2 ^ 1) turns (new_machine (2 ^ 1)))
interleave-IsFifoRun_example = interleave-IsFifoRun 1 turns (omega arith)

abbrev busy_turns : List (Turn ℕ)
busy_turns =
    enters 7
    ∷ produces
    ∷ produces
    ∷ produces
    ∷ produces
    ∷ produces
    ∷ enters 8
    ∷ produces
    ∷ produces
    ∷ consumes
    ∷ consumes
    ∷ []

-- After these turns the second producer is about to write while the consumer reads.
slots_safe_example :
    let m = after_turns (2 ^ 2) busy_turns (new_machine {A = ℕ} (2 ^ 2)) in
    WritesFree m.producer m.queue.buffer
    × ReadsLive m.consumer m.queue.buffer
    × AreApart (producer_slot m.producer) (consumer_slot m.consumer)
slots_safe_example = slots_safe 2 busy_turns (omega arith)

both_at_slots :
    let m = after_turns (2 ^ 2) busy_turns (new_machine {A = ℕ} (2 ^ 2)) in
    (producer_slot m.producer ≡ some 1) × (consumer_slot m.consumer ≡ some 0)
unfolding after_turns turn enter produce take_turn new_queue next_index
both_at_slots = (refl, refl)

-- The producer is to write, the consumer at the head, and another producer waits for the lock.
abbrev under_way : Machine ℕ
under_way = record { queue = new_queue 4; producer = roomy 8 1; consumer = at_head 0 }

abbrev enough_turns : List (Turn ℕ)
enough_turns =
    consumes ∷ produces ∷ enters 9 ∷ produces ∷ consumes ∷ produces ∷ consumes ∷ produces ∷ []

calls_end_example :
    Reaches 4 enough_turns under_way (λ m. m.producer ≡ outside)
    × Reaches 4 enough_turns under_way (λ m. m.consumer ≡ idle)
calls_end_example = calls_end 4 enough_turns under_way (omega arith) (omega arith)
