-- ===== src/Mpsc/Settled.antt =====
-- The ring between two accesses of its threads: what is settled, and what is under way.
use native.Mathlib.Nat.{mod-lt}
use flowkernel.Base.{
  ℕ, zero, suc, ◌+◌, ◌^◌, ◌<◌, ◌≡◌, ◌≢◌, ◌↔◌, refl, ap, ◌∙◌, List, [], ◌∷◌, Option, none, some,
  arith, length, set,
}
use flowkernel.Mpsc.{Queue, item, next_index}
use flowkernel.Mpsc.Fifo.{Fifo}
use flowkernel.Mpsc.Index.{two_pow_fits, next_index_lem, full_iff, empty_iff}
use flowkernel.Mpsc.Represents.{Represents}
use flowkernel.Mpsc.Threads.{
  Producer, at_tail, roomy, written, Consumer, idle, at_head, ready, moved, Machine,
}

pub set_comm :
    {B : Type 0} (xs : List B) (i j : ℕ) (a b : B)
    → i ≢ j
    → set (set xs i a) j b ≡ set (set xs j b) i a
set_comm [] i j a b h = refl
set_comm (x ∷ xs) zero zero a b h = absurd (h refl)
set_comm (x ∷ xs) zero (suc j) a b h = refl
set_comm (x ∷ xs) (suc i) zero a b h = refl
set_comm (x ∷ xs) (suc i) (suc j) a b h = ap (◌∷◌ x) (set_comm xs i j a b (λ e. h (ap suc e)))

module _ {A : Type 0} where
  -- The write of a producer before it stores `tail_`, and that of the consumer before it stores
  -- `head_`.
  abbrev pub fill : Producer A → List (Option A) → List (Option A)
  fill (written a t) buffer = set buffer t (some a)
  fill _ buffer = buffer

  abbrev pub punch : Consumer A → List (Option A) → List (Option A)
  punch (moved h x) buffer = set buffer h none
  punch _ buffer = buffer

  -- What a thread has found out stays true while the other one goes on.
  abbrev pub ProducerOk : ℕ → Queue A → List A → Producer A → Type 0
  ProducerOk c q items (at_tail a t) = t ≡ q.tail
  ProducerOk c q items (roomy a t) = (t ≡ q.tail) × (length items + 1 < c)
  ProducerOk c q items (written a t) = (t ≡ q.tail) × (length items + 1 < c)
  ProducerOk c q items _ = Unit {0}

  abbrev pub ConsumerOk : Queue A → List A → Consumer A → Type 0
  ConsumerOk q items idle = Unit {0}
  ConsumerOk q items (at_head h) = h ≡ q.head
  ConsumerOk q items (ready h) = (h ≡ q.head) × (0 < length items)
  ConsumerOk q items (moved h (item a)) = (h ≡ q.head) × (rest : List A) × (items ≡ a ∷ rest)
  ConsumerOk q items (moved h _) = ⊥

  -- The machine holds `items`, some of it under way.
  pub record Holds (k : ℕ) (m : Machine A) (items : List A) : Type 0 where
    pub settled : List (Option A)
    pub held :
        Represents k
          (record m.queue { buffer = settled })
          (record { items = items; lost = m.queue.dropped })
    pub under_way : m.queue.buffer ≡ punch m.consumer (fill m.producer settled)
    pub producer_ok : ProducerOk (2 ^ k) m.queue items m.producer
    pub consumer_ok : ConsumerOk m.queue items m.consumer

  -- With an item in the ring its two ends are different slots.
  pub ends_apart :
      {k : ℕ} {q : Queue A} {f : Fifo A} → Represents k q f → 0 < length f.items → q.head ≢ q.tail
  ends_apart {k} {q} {f} r some_item e = omega (
    arith,
    (empty_iff (2 ^ k) q.head (length f.items) r.head_in r.room).0 (e ∙ r.tail_at),
    some_item,
  )

  pub tail_in : {k : ℕ} {q : Queue A} {f : Fifo A} → Represents k q f → q.tail < 2 ^ k
  tail_in {k} {q} {f} r =
      omega (arith, r.tail_at, mod-lt (q.head + length f.items) (two_pow_fits k r.word).0)

  -- The producer finds the ring full exactly when only one slot is free.
  pub full_seen :
      {k : ℕ} {q : Queue A} {f : Fifo A}
      → Represents k q f
      → (next_index (2 ^ k) q.tail ≡ q.head) ↔ (length f.items + 1 ≡ 2 ^ k)
  full_seen {k} {q} {f} r =
      rw (next_index_lem k q.tail r.word (tail_in r), r.tail_at)
        (full_iff (2 ^ k) q.head (length f.items) r.head_in r.room)

  pub empty_seen :
      {k : ℕ} {q : Queue A} {f : Fifo A}
      → Represents k q f
      → (q.head ≡ q.tail) ↔ (length f.items ≡ 0)
  empty_seen {k} {q} {f} r =
      rw r.tail_at (empty_iff (2 ^ k) q.head (length f.items) r.head_in r.room)
