-- ===== src/Tests/Queue.antt =====
-- The queue, its capacity and the hash on concrete values.
use flowkernel.Base.{
  ℕ, ◌^◌, ◌≡◌, ◌≢◌, ◌↔◌, ◌⊎◌, List, [], ◌∷◌, none, some, true, false, arith, replicate,
}
use flowkernel.Hash.{fnv1a_hash}
use flowkernel.Hash.Laws.{fnv1a_hash_one_byte}
use flowkernel.Mpsc.{
  Queue, Op, capacity_ok, new_queue, destroy, item, empty, pushes, pops, counts, pushed, got, count,
  run,
}
use flowkernel.Mpsc.Capacity.{capacity_ok_iff}
use flowkernel.Mpsc.Fifo.{Fifo, fifo_push, fifo_pop, fifo_run}
use flowkernel.Mpsc.Refine.{run_refines}
use flowkernel.Mpsc.Destroy.{destroy_lem}
use flowkernel.Tests.Data.{full_queue, full_items, full_queue-Represents}

abbrev two_ops : List (Op ℕ)
two_ops = pushes 7 ∷ pushes 8 ∷ pops ∷ pops ∷ counts ∷ []

-- A ring of two slots: it holds one item, and refuses the second.
run_refines_example :
    run (2 ^ 1) (new_queue (2 ^ 1)) two_ops
    ≡ pushed true ∷ pushed false ∷ got (item 7) ∷ got empty ∷ count 1 ∷ []
unfolding fifo_run fifo_push fifo_pop
run_refines_example = run_refines 1 two_ops (omega arith)

abbrev full : Queue ℕ
full = full_queue 7

abbrev held : Fifo ℕ
held = full_items 7

destroy_lem_example : destroy (2 ^ 9) full ≡ some (replicate 511 7, replicate (2 ^ 9) none)
destroy_lem_example = destroy_lem {k = 9} (full_queue-Represents {A = ℕ} 7)

abbrev size : ℕ
size = 512

capacity_ok_iff_example : (capacity_ok size ≡ true) ↔ ((size ≡ 0) ⊎ ((k : ℕ) × (size ≡ 2 ^ k)))
capacity_ok_iff_example = capacity_ok_iff size (omega arith)

fnv1a_hash_one_byte_example :
    fnv1a_hash (b'a' ∷ b'x' ∷ b'/' ∷ []) ≢ fnv1a_hash (b'a' ∷ b'y' ∷ b'/' ∷ [])
fnv1a_hash_one_byte_example =
    fnv1a_hash_one_byte (b'a' ∷ []) (b'/' ∷ []) b'x' b'y' (omega arith, tt) (omega arith)
      (omega arith) (omega arith)
