-- ===== src/Mpsc/Refine.antt =====
-- A queue with a capacity of `2 ^ k` slots behaves as a FIFO of at most `2 ^ k - 1` items.
use native.Mathlib.Nat.{mod-lt, mod-add-mod, mod-eq_of_lt}
use native.Mathlib.Decide.{ℕ_discrete}
use flowkernel.Base.{
  ℕ, zero, suc, ◌+◌, ◌-◌, ◌%◌, ◌^◌, ◌≤◌, ◌<◌, ◌≡◌, ◌≢◌, refl, sym, ap, ap₂, ◌∙◌, List, [], ◌∷◌,
  ◌++◌, none, some, true, false, arith, add64, ◌==◌, ==_iff, length, get_elem?, set, length-append,
  length-set, length-replicate, replicate,
}
use flowkernel.Mpsc.{
  Queue, empty, item, next_index, new_queue, push, pop, dropped_count, Op, pushes, pops, counts,
  pushed, got, count, run,
}
use flowkernel.Mpsc.Index.{two_pow_fits, next_index_lem, wrap_next, full_iff, empty_iff}
use flowkernel.Mpsc.Represents.{Represents, cells-set_last, cells-clear_first}
use flowkernel.Mpsc.Fifo.{Fifo, fifo_push, fifo_pop, fifo_run}

module _ {ℓ} {A : Type ℓ} where
  -- The two branches of `push` and of `pop`, by the number of items.
  push-full :
      {k : ℕ} {q : Queue A} {f : Fifo A} (a : A)
      → Represents k q f
      → length f.items + 1 ≡ 2 ^ k
      → push (2 ^ k) q a ≡ (false, record q { dropped = add64 q.dropped 1 })
  unfolding push
  push-full {k} {q} {f} a r full =
      let pos : q.tail < 2 ^ k =
        rw r.tail_at (mod-lt (q.head + length f.items) (two_pow_fits k r.word).0) in
      let e : (next_index (2 ^ k) q.tail == q.head) ≡ true =
        rw (next_index_lem k q.tail r.word pos, r.tail_at)
          ((==_iff _ _).1 ((full_iff (2 ^ k) q.head (length f.items) r.head_in r.room).1 full)) in
      rw e

  push-room :
      {k : ℕ} {q : Queue A} {f : Fifo A} (a : A)
      → Represents k q f
      → length f.items + 1 ≢ 2 ^ k
      → push (2 ^ k) q a
        ≡ (true, record q { buffer = set q.buffer q.tail (some a); tail = (q.tail + 1) % 2 ^ k })
  unfolding push
  push-room {k} {q} {f} a r free =
      let pos : q.tail < 2 ^ k =
        rw r.tail_at (mod-lt (q.head + length f.items) (two_pow_fits k r.word).0) in
      let n = next_index_lem k q.tail r.word pos in
      let ne : (q.tail + 1) % 2 ^ k ≢ q.head = λ e. free (
        (full_iff (2 ^ k) q.head (length f.items) r.head_in r.room).0
          (ap (λ (t : ℕ). (t + 1) % 2 ^ k) (sym r.tail_at) ∙ e)) in
      ground (arith, n, ne)

  pub fifo_push-full :
      (limit : ℕ) (f : Fifo A) (a : A)
      → limit ≤ length f.items
      → fifo_push limit f a ≡ (false, record f { lost = add64 f.lost 1 })
  unfolding fifo_push
  fifo_push-full limit f a h = ground arith

  pub fifo_push-room :
      (limit : ℕ) (f : Fifo A) (a : A)
      → length f.items < limit
      → fifo_push limit f a ≡ (true, record f { items = f.items ++ a ∷ [] })
  unfolding fifo_push
  fifo_push-room limit f a h = ground arith

  pub Represents-dropped :
      {k : ℕ} {q : Queue A} {f : Fifo A}
      → Represents k q f
      → Represents k (record q { dropped = add64 q.dropped 1 }) (record f { lost = add64 f.lost 1 })
  Represents-dropped r = record {
    word = r.word;
    size = r.size;
    head_in = r.head_in;
    tail_at = r.tail_at;
    room = r.room;
    lost = ap (λ (t : ℕ). add64 t 1) r.lost;
    cells = r.cells;
  }

  pub Represents-pushed :
      {k : ℕ} {q : Queue A} {f : Fifo A} (a : A)
      → Represents k q f
      → length f.items + 1 < 2 ^ k
      → Represents k
          (record q { buffer = set q.buffer q.tail (some a); tail = (q.tail + 1) % 2 ^ k })
          (record f { items = f.items ++ a ∷ [] })
  Represents-pushed {k} {q} {f} a r h = record {
    word = r.word;
    size = length-set q.buffer q.tail (some a) ∙ r.size;
    head_in = r.head_in;
    tail_at =
        rw (r.tail_at, length-append f.items (a ∷ []))
          (mod-add-mod (q.head + length f.items) (2 ^ k) 1
            ∙ ap (λ (t : ℕ). t % 2 ^ k) (omega arith));
    room = omega (arith, length-append f.items (a ∷ []));
    lost = r.lost;
    cells = λ i hi.
        rw r.tail_at
          (cells-set_last (2 ^ k) q.head q.buffer f.items a r.size r.head_in r.room r.cells i hi);
  }

  -- On a queue that holds the items of a FIFO, `push` answers as the FIFO does, and leaves the
  -- queue holding the FIFO's items.
  pub push_refines :
      {k : ℕ} {q : Queue A} {f : Fifo A} (a : A)
      → Represents k q f
      → ((push (2 ^ k) q a).0 ≡ (fifo_push (2 ^ k - 1) f a).0)
        × Represents k (push (2 ^ k) q a).1 (fifo_push (2 ^ k - 1) f a).1
  push_refines {k} {q} {f} a r = elim (ℕ_discrete (length f.items + 1) (2 ^ k)) [
    | yes full ↦
        rw (push-full a r full, fifo_push-full (2 ^ k - 1) f a (omega arith))
          (refl, Represents-dropped r)
    | no free ↦
        let room : length f.items + 1 < 2 ^ k = omega (arith, r.room) in
        rw (push-room a r free, fifo_push-room (2 ^ k - 1) f a (omega arith))
          (refl, Represents-pushed a r room)
  ]

  pub pop-empty :
      {k : ℕ} {q : Queue A} {lost : ℕ}
      → Represents k q (record { items = []; lost = lost })
      → pop (2 ^ k) q ≡ (empty, q)
  unfolding pop
  pop-empty {k} {q} r =
      let e : q.head ≡ q.tail =
        (empty_iff (2 ^ k) q.head 0 r.head_in r.room).1 refl ∙ sym r.tail_at in
      ground (arith, e)

  -- With an item in it the queue has its head before its tail, and the item at the head.
  pub tail_ne_head :
      {k : ℕ} {q : Queue A} {lost : ℕ} {x : A} {xs : List A}
      → Represents k q (record { items = x ∷ xs; lost = lost })
      → q.head ≢ q.tail
  tail_ne_head {k} {q} {xs} r e =
      omega (arith, (empty_iff (2 ^ k) q.head (suc (length xs)) r.head_in r.room).0 (e ∙ r.tail_at))

  pub first_cell :
      {k : ℕ} {q : Queue A} {lost : ℕ} {x : A} {xs : List A}
      → Represents k q (record { items = x ∷ xs; lost = lost })
      → get_elem? q.buffer q.head ≡ some (some x)
  first_cell {k} {q} r =
      let pos : 0 < 2 ^ k = (two_pow_fits k r.word).0 in
      ap (get_elem? q.buffer) ((empty_iff (2 ^ k) q.head 0 r.head_in pos).1 refl) ∙ r.cells 0 pos

  pub pop-item :
      {k : ℕ} {q : Queue A} {lost : ℕ} {x : A} {xs : List A}
      → Represents k q (record { items = x ∷ xs; lost = lost })
      → pop (2 ^ k) q
        ≡ (item x, record q { buffer = set q.buffer q.head none; head = (q.head + 1) % 2 ^ k })
  unfolding pop
  pop-item {k} {q} r =
      ground (arith, next_index_lem k q.head r.word r.head_in, tail_ne_head r, first_cell r)

  pub Represents-popped :
      {k : ℕ} {q : Queue A} {lost : ℕ} {x : A} {xs : List A}
      → Represents k q (record { items = x ∷ xs; lost = lost })
      → Represents k
          (record q { buffer = set q.buffer q.head none; head = (q.head + 1) % 2 ^ k })
          (record { items = xs; lost = lost })
  Represents-popped {k} {q} {x = x} {xs} r = record {
    word = r.word;
    size = length-set q.buffer q.head none ∙ r.size;
    head_in = mod-lt (q.head + 1) (two_pow_fits k r.word).0;
    tail_at = r.tail_at ∙ sym (wrap_next (2 ^ k) q.head (length xs));
    room = omega (arith, r.room);
    lost = r.lost;
    cells = cells-clear_first (2 ^ k) q.head q.buffer x xs r.size r.head_in r.room r.cells;
  }

  pop_items_refines :
      {k : ℕ} {q : Queue A} {lost : ℕ} (items : List A)
      → Represents k q (record { items = items; lost = lost })
      → ((pop (2 ^ k) q).0 ≡ (fifo_pop (record { items = items; lost = lost })).0)
        × Represents k (pop (2 ^ k) q).1 (fifo_pop (record { items = items; lost = lost })).1
  unfolding fifo_pop
  pop_items_refines [] r = rw (pop-empty r) (refl, r)
  pop_items_refines (x ∷ xs) r = rw (pop-item r) (refl, Represents-popped r)

  -- On a queue that holds the items of a FIFO, `pop` answers as the FIFO does, so it never reads a
  -- slot without an object, and leaves the queue holding the rest.
  pub pop_refines :
      {k : ℕ} {q : Queue A} {f : Fifo A}
      → Represents k q f
      → ((pop (2 ^ k) q).0 ≡ (fifo_pop f).0) × Represents k (pop (2 ^ k) q).1 (fifo_pop f).1
  pop_refines {f} r = pop_items_refines f.items r

  get_elem?-replicate : (n i : ℕ) (a : A) → i < n → get_elem? (replicate n a) i ≡ some a
  get_elem?-replicate zero i a h = absurd (omega arith)
  get_elem?-replicate (suc n) zero a h = refl
  get_elem?-replicate (suc n) (suc i) a h = get_elem?-replicate n i a (omega arith)

module _ {ℓ} {A : Type ℓ} where
  abbrev pub no_items : Fifo A
  no_items = record { items = []; lost = 0 }

  pub new_queue-Represents : (k : ℕ) → k < 64 → Represents k (new_queue (2 ^ k)) no_items
  unfolding new_queue
  new_queue-Represents k h =
      let pos = (two_pow_fits k h).0 in
      record {
        word = h;
        size = length-replicate (2 ^ k) none;
        head_in = pos;
        tail_at = sym (mod-eq_of_lt pos);
        room = pos;
        lost = refl;
        cells = λ i hi. get_elem?-replicate (2 ^ k) ((0 + i) % 2 ^ k) none (mod-lt (0 + i) pos);
      }

  run_represented :
      (ops : List (Op A)) {k : ℕ} {q : Queue A} {f : Fifo A}
      → Represents k q f
      → run (2 ^ k) q ops ≡ fifo_run (2 ^ k - 1) f ops
  unfolding run fifo_run dropped_count
  run_represented [] r = refl
  run_represented (pushes a ∷ ops) r =
      let (same, next) = push_refines a r in ap₂ ◌∷◌ (ap pushed same) (run_represented ops next)
  run_represented (pops ∷ ops) r =
      let (same, next) = pop_refines r in ap₂ ◌∷◌ (ap got same) (run_represented ops next)
  run_represented (counts ∷ ops) r = ap₂ ◌∷◌ (ap count r.lost) (run_represented ops r)

  -- From the constructor on, no sequence of `push`, `pop` and `dropped_count` tells the ring of
  -- `2 ^ k` slots, `k` below 64, from an empty FIFO of at most `2 ^ k - 1` items.
  pub run_refines :
      (k : ℕ) (ops : List (Op A))
      → k < 64
      → run (2 ^ k) (new_queue (2 ^ k)) ops ≡ fifo_run (2 ^ k - 1) no_items ops
  run_refines k ops h = run_represented ops (new_queue-Represents k h)
