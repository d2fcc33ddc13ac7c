-- ===== src/Mpsc.antt =====
-- `MPSCQueue<T, Capacity>` of include/robot_dataflow/mpsc_queue.hpp, one whole call at a time.
-- A slot of `buffer_` is raw storage: `some a` where an object is alive in it, `none` elsewhere.
-- Producers hold the spin lock from first to last and there is one consumer, which takes no lock.
pub mod Capacity
pub mod Fifo
pub mod Index
pub mod Represents
pub mod Refine
pub mod Destroy
pub mod Threads
pub mod Settled
pub mod Interleave
pub mod Linear
pub mod Consume
pub mod Races
pub mod Progress
use flowkernel.Base.{
  ℕ, zero, suc, List, [], ◌∷◌, Option, none, some, Bool, true, false, bit_and, add64, sub64, ◌==◌,
  if◌then◌else◌, get_elem?, set, replicate,
}

-- The `static_assert` on the template's argument.
unfoldable pub capacity_ok : ℕ → Bool
capacity_ok capacity = bit_and capacity (sub64 capacity 1) == 0

-- `(i + 1) & (Capacity - 1)`
unfoldable pub next_index : ℕ → ℕ → ℕ
next_index capacity i = bit_and (add64 i 1) (sub64 capacity 1)

pub record Queue {ℓ} (A : Type ℓ) : Type ℓ where
  pub buffer : List (Option A)
  pub head : ℕ
  pub tail : ℕ
  pub dropped : ℕ

-- What `pop` hands over. `fault` is a read of a slot in which no object is alive.
pub data Popped {ℓ} (A : Type ℓ) : Type ℓ where
  empty : Popped A
  item : A → Popped A
  fault : Popped A

module _ {ℓ} {A : Type ℓ} where
  abbrev pub popped_of : Option (Option A) → Popped A
  popped_of (some (some a)) = item a
  popped_of _ = fault

  unfoldable pub new_queue : ℕ → Queue A
  new_queue capacity = record { buffer = replicate capacity none; head = 0; tail = 0; dropped = 0 }

  unfoldable pub push : ℕ → Queue A → A → Bool × Queue A
  push capacity q a =
      let next = next_index capacity q.tail in
      if next == q.head
      then (false, record q { dropped = add64 q.dropped 1 })
      else (true, record q { buffer = set q.buffer q.tail (some a); tail = next })

  unfoldable pub pop : ℕ → Queue A → Popped A × Queue A
  pop capacity q = if q.head == q.tail then (empty, q) else (
    popped_of (get_elem? q.buffer q.head),
    record q { buffer = set q.buffer q.head none; head = next_index capacity q.head },
  )

  unfoldable pub dropped_count : Queue A → ℕ
  dropped_count q = q.dropped

  -- One object destroyed before the rest of the loop.
  abbrev pub then_destroyed :
      Popped A → Option (List A × List (Option A)) → Option (List A × List (Option A))
  then_destroyed (item a) (some (gone, left)) = some (a ∷ gone, left)
  then_destroyed _ _ = none

  -- The loop of the destructor, on fuel: the objects destroyed, in order, and the storage left.
  -- `none`: the fuel ran out, or a slot without an object was destroyed.
  unfoldable pub destroy_loop : ℕ → ℕ → ℕ → ℕ → List (Option A) → Option (List A × List (Option A))
  destroy_loop capacity zero h t buffer = none
  destroy_loop capacity (suc fuel) h t buffer =
      let rest = destroy_loop capacity fuel (next_index capacity h) t (set buffer h none) in
      if h == t then some ([], buffer) else then_destroyed (popped_of (get_elem? buffer h)) rest

  unfoldable pub destroy : ℕ → Queue A → Option (List A × List (Option A))
  destroy capacity q = destroy_loop capacity capacity q.head q.tail q.buffer

-- A caller's sequence of calls, and what it sees of each.
pub data Op {ℓ} (A : Type ℓ) : Type ℓ where
  pushes : A → Op A
  pops : Op A
  counts : Op A

pub data Reply {ℓ} (A : Type ℓ) : Type ℓ where
  pushed : Bool → Reply A
  got : Popped A → Reply A
  count : ℕ → Reply A

module _ {ℓ} {A : Type ℓ} where
  unfoldable pub run : ℕ → Queue A → List (Op A) → List (Reply A)
  run capacity q [] = []
  run capacity q (pushes a ∷ ops) =
      let (b, q') = push capacity q a in pushed b ∷ run capacity q' ops
  run capacity q (pops ∷ ops) = let (r, q') = pop capacity q in got r ∷ run capacity q' ops
  run capacity q (counts ∷ ops) = count (dropped_count q) ∷ run capacity q ops
