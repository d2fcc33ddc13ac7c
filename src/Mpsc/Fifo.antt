-- ===== src/Mpsc/Fifo.antt =====
-- What the queue promises its callers: a FIFO of at most `limit` items that counts what it refuses.
use flowkernel.Base.{ℕ, List, [], ◌∷◌, ◌++◌, Bool, true, false, add64, leb, if◌then◌else◌, length}
use flowkernel.Mpsc.{Popped, empty, item, Op, pushes, pops, counts, Reply, pushed, got, count}

pub record Fifo {ℓ} (A : Type ℓ) : Type ℓ where
  pub items : List A
  pub lost : ℕ

module _ {ℓ} {A : Type ℓ} where
  unfoldable pub fifo_push : ℕ → Fifo A → A → Bool × Fifo A
  fifo_push limit f a =
      if leb limit (length f.items)
      then (false, record f { lost = add64 f.lost 1 })
      else (true, record f { items = f.items ++ a ∷ [] })

  abbrev pop_items : ℕ → List A → Popped A × Fifo A
  pop_items lost [] = (empty, record { items = []; lost = lost })
  pop_items lost (a ∷ rest) = (item a, record { items = rest; lost = lost })

  unfoldable pub fifo_pop : Fifo A → Popped A × Fifo A
  fifo_pop f = pop_items f.lost f.items

  unfoldable pub fifo_run : ℕ → Fifo A → List (Op A) → List (Reply A)
  fifo_run limit f [] = []
  fifo_run limit f (pushes a ∷ ops) =
      let (b, f') = fifo_push limit f a in pushed b ∷ fifo_run limit f' ops
  fifo_run limit f (pops ∷ ops) = let (r, f') = fifo_pop f in got r ∷ fifo_run limit f' ops
  fifo_run limit f (counts ∷ ops) = count f.lost ∷ fifo_run limit f ops
