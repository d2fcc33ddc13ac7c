-- ===== src/Mpsc/Threads.antt =====
-- `push` and `pop` of include/robot_dataflow/mpsc_queue.hpp one access to the shared state at a
-- time, so that the producers and the consumer interleave. Accesses take effect in the order of the
-- turns: the loads and stores of `head_` and `tail_` are acquire and release, and the spin lock
-- orders the producers. A producer that finds the lock taken spins, which changes nothing.
use flowkernel.Base.{
  ℕ, List, [], ◌∷◌, ◌++◌, none, some, Bool, true, false, add64, ◌==◌, if◌then◌else◌, get_elem?, set,
}
use flowkernel.Mpsc.{Queue, Popped, empty, popped_of, new_queue, next_index}

-- The thread that holds `push_lock_`: what it carries from its last access to the next.
pub data Producer (A : Type 0) : Type 0 where
  outside : Producer A
  entered : A → Producer A
  at_tail : A → ℕ → Producer A
  roomy : A → ℕ → Producer A
  written : A → ℕ → Producer A
  refusing : Producer A
  leaving : Bool → Producer A

pub data Consumer (A : Type 0) : Type 0 where
  idle : Consumer A
  at_head : ℕ → Consumer A
  ready : ℕ → Consumer A
  moved : ℕ → Popped A → Consumer A

pub record Machine (A : Type 0) : Type 0 where
  pub queue : Queue A
  pub producer : Producer A
  pub consumer : Consumer A

-- Whose access is next: a thread that tries the lock with an item, the lock's holder, or the
-- consumer.
pub data Turn (A : Type 0) : Type 0 where
  enters : A → Turn A
  produces : Turn A
  consumes : Turn A

-- When it is settled what a call does: a stored `tail_`, a full ring that is seen, a stored
-- `head_`, an empty ring that is seen.
pub data Seen (A : Type 0) : Type 0 where
  accepted : A → Seen A
  refused : A → Seen A
  took : Popped A → Seen A

module _ {A : Type 0} where
  abbrev pub new_machine : ℕ → Machine A
  new_machine capacity = record { queue = new_queue capacity; producer = outside; consumer = idle }

  -- `test_and_set`
  unfoldable pub enter : A → Producer A → Producer A
  enter a outside = entered a
  enter a p = p

  unfoldable pub produce : ℕ → Producer A → Machine A → Machine A × List (Seen A)
  produce capacity outside m = (m, [])
  produce capacity (entered a) m = (record m { producer = at_tail a m.queue.tail }, [])
  produce capacity (at_tail a t) m =
      if next_index capacity t == m.queue.head
      then (record m { producer = refusing }, refused a ∷ [])
      else (record m { producer = roomy a t }, [])
  produce capacity (roomy a t) m = (
    record m {
      queue = record m.queue { buffer = set m.queue.buffer t (some a) };
      producer = written a t;
    },
    [],
  )
  produce capacity (written a t) m = (
    record m { queue = record m.queue { tail = next_index capacity t }; producer = leaving true },
    accepted a ∷ [],
  )
  produce capacity refusing m = (
    record m {
      queue = record m.queue { dropped = add64 m.queue.dropped 1 };
      producer = leaving false;
    },
    [],
  )
  produce capacity (leaving pushed) m = (record m { producer = outside }, [])

  unfoldable pub take_turn : ℕ → Consumer A → Machine A → Machine A × List (Seen A)
  take_turn capacity idle m = (record m { consumer = at_head m.queue.head }, [])
  take_turn capacity (at_head h) m =
      if h == m.queue.tail
      then (record m { consumer = idle }, took empty ∷ [])
      else (record m { consumer = ready h }, [])
  take_turn capacity (ready h) m = (
    record m {
      queue = record m.queue { buffer = set m.queue.buffer h none };
      consumer = moved h (popped_of (get_elem? m.queue.buffer h));
    },
    [],
  )
  take_turn capacity (moved h x) m = (
    record m { queue = record m.queue { head = next_index capacity h }; consumer = idle },
    took x ∷ [],
  )

  unfoldable pub turn : ℕ → Turn A → Machine A → Machine A × List (Seen A)
  turn capacity (enters a) m = (record m { producer = enter a m.producer }, [])
  turn capacity produces m = produce capacity m.producer m
  turn capacity consumes m = take_turn capacity m.consumer m

  unfoldable pub interleave : ℕ → List (Turn A) → Machine A → List (Seen A)
  interleave capacity [] m = []
  interleave capacity (t ∷ turns) m =
      let (m', seen) = turn capacity t m in seen ++ interleave capacity turns m'

  unfoldable pub after_turns : ℕ → List (Turn A) → Machine A → Machine A
  after_turns capacity [] m = m
  after_turns capacity (t ∷ turns) m = after_turns capacity turns (turn capacity t m).0
