-- ===== src/Mpsc/Destroy.antt =====
-- `~MPSCQueue`: its loop ends, and destroys each item that is left once, and nothing else.
use native.Mathlib.Nat.{mod-lt, mod-eq_of_lt, add-mod_right}
use native.Mathlib.Decide.{dec_lt}
use flowkernel.Base.{
  ℕ, zero, suc, ◌+◌, ◌-◌, ◌%◌, ◌^◌, ◌<◌, ◌≡◌, refl, sym, ap, ap₂, ◌∙◌, List, [], ◌∷◌, none, some,
  arith, length, get_elem?, set, replicate,
}
use flowkernel.Mpsc.{Queue, destroy_loop, destroy}
use flowkernel.Mpsc.Fifo.{Fifo}
use flowkernel.Mpsc.Index.{two_pow_fits, next_index_lem, empty_iff}
use flowkernel.Mpsc.Represents.{Represents}
use flowkernel.Mpsc.Refine.{Represents-popped, first_cell, tail_ne_head}

module _ {ℓ} {A : Type ℓ} where
  eq-replicate :
      (xs : List A) (n : ℕ) (a : A)
      → length xs ≡ n
      → ((i : ℕ) → i < n → get_elem? xs i ≡ some a)
      → xs ≡ replicate n a
  eq-replicate [] zero a e h = refl
  eq-replicate [] (suc n) a e h = absurd (omega arith)
  eq-replicate (x ∷ xs) zero a e h = absurd (omega arith)
  eq-replicate (x ∷ xs) (suc n) a e h =
      ap₂ ◌∷◌ (ground (arith, h 0 (omega arith)))
        (eq-replicate xs n a (omega arith) (λ i hi. h (suc i) (omega arith)))

-- Every place is some number of steps from the head.
steps_to : (c h j : ℕ) → h < c → j < c → (h + (j + c - h) % c) % c ≡ j
steps_to c h j hh hj = elim (dec_lt j h) [
  | yes p ↦
      let e : (j + c - h) % c ≡ j + c - h = mod-eq_of_lt (omega arith) in
      rw e (ap (λ (t : ℕ). t % c) (omega arith) ∙ add-mod_right j c ∙ mod-eq_of_lt hj)
  | no p ↦
      let e : (j + c - h) % c ≡ j - h =
        ap (λ (t : ℕ). t % c) (omega arith)
        ∙ add-mod_right (j - h) c
        ∙ mod-eq_of_lt {n = j - h} {m = c} (omega arith) in
      rw e (ap (λ (t : ℕ). t % c) (omega arith) ∙ mod-eq_of_lt hj)
]

module _ {ℓ} {A : Type ℓ} where
  drained-storage :
      {k : ℕ} {q : Queue A} {lost : ℕ}
      → Represents k q (record { items = []; lost = lost })
      → q.buffer ≡ replicate (2 ^ k) none
  drained-storage {k} {q} r = eq-replicate q.buffer (2 ^ k) none r.size λ j hj.
      ap (get_elem? q.buffer) (sym (steps_to (2 ^ k) q.head j r.head_in hj))
      ∙ r.cells ((j + 2 ^ k - q.head) % 2 ^ k) (mod-lt _ (two_pow_fits k r.word).0)

  destroy_loop_lem :
      (items : List A) (fuel k : ℕ) (q : Queue A) {lost : ℕ}
      → Represents k q (record { items = items; lost = lost })
      → length items < fuel
      → destroy_loop (2 ^ k) fuel q.head q.tail q.buffer ≡ some (items, replicate (2 ^ k) none)
  unfolding destroy_loop
  destroy_loop_lem items zero k q r h = absurd (omega arith)
  destroy_loop_lem [] (suc fuel) k q r h =
      let e : q.head ≡ q.tail =
        (empty_iff (2 ^ k) q.head 0 r.head_in r.room).1 refl ∙ sym r.tail_at in
      ground (arith, e, drained-storage r)
  destroy_loop_lem (x ∷ xs) (suc fuel) k q r h = ground (
    arith,
    next_index_lem k q.head r.word r.head_in,
    tail_ne_head r,
    first_cell r,
    destroy_loop_lem xs fuel k
        (record q { buffer = set q.buffer q.head none; head = (q.head + 1) % 2 ^ k })
        (Represents-popped r) (omega arith),
  )

  -- The destructor of a queue that holds `f.items` ends, destroys exactly these, oldest first, and
  -- leaves no object alive in any slot.
  pub destroy_lem :
      {k : ℕ} {q : Queue A} {f : Fifo A}
      → Represents k q f
      → destroy (2 ^ k) q ≡ some (f.items, replicate (2 ^ k) none)
  unfolding destroy
  destroy_lem {k} {q} {f} r = destroy_loop_lem f.items (2 ^ k) k q r r.room
