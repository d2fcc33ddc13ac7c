-- ===== src/Mpsc/Represents.antt =====
-- The items that a queue holds, by the slots of its ring: how a write at the tail and the removal
-- of the object at the head change them.
use native.Mathlib.Nat.{mod-lt}
use native.Mathlib.Decide.{dec_lt, ℕ_discrete}
use flowkernel.Base.{
  ℕ, zero, suc, ◌+◌, ◌%◌, ◌^◌, ◌≤◌, ◌<◌, ◌≡◌, ◌≢◌, refl, sym, ap, ◌∙◌, List, [], ◌∷◌, ◌++◌, Option,
  none, some, arith, length, get_elem?, set, get_elem?-set_self, get_elem?-set_ne,
}
use flowkernel.Mpsc.{Queue}
use flowkernel.Mpsc.Index.{wrap_injective, wrap_next, mod_self_add, empty_iff}
use flowkernel.Mpsc.Fifo.{Fifo}

module _ {ℓ} {A : Type ℓ} where
  -- The slot `i` places after the head holds item `i`, and no object from the last item on.
  pub record Represents (k : ℕ) (q : Queue A) (f : Fifo A) : Type ℓ where
    pub word : k < 64
    pub size : length q.buffer ≡ 2 ^ k
    pub head_in : q.head < 2 ^ k
    pub tail_at : q.tail ≡ (q.head + length f.items) % 2 ^ k
    pub room : length f.items < 2 ^ k
    pub lost : q.dropped ≡ f.lost
    pub cells :
        (i : ℕ) → i < 2 ^ k → get_elem? q.buffer ((q.head + i) % 2 ^ k) ≡ some (get_elem? f.items i)

  get_elem?-append_last : (xs : List A) (a : A) → get_elem? (xs ++ a ∷ []) (length xs) ≡ some a
  get_elem?-append_last [] a = refl
  get_elem?-append_last (x ∷ xs) a = get_elem?-append_last xs a

  get_elem?-append_ne :
      (xs : List A) (a : A) (i : ℕ) → i ≢ length xs → get_elem? (xs ++ a ∷ []) i ≡ get_elem? xs i
  get_elem?-append_ne [] a zero h = absurd (h refl)
  get_elem?-append_ne [] a (suc i) h = refl
  get_elem?-append_ne (x ∷ xs) a zero h = refl
  get_elem?-append_ne (x ∷ xs) a (suc i) h = get_elem?-append_ne xs a i (λ e. h (ap suc e))

  pub get_elem?_beyond : (xs : List A) (i : ℕ) → length xs ≤ i → get_elem? xs i ≡ none
  get_elem?_beyond [] i h = refl
  get_elem?_beyond (x ∷ xs) zero h = absurd (omega arith)
  get_elem?_beyond (x ∷ xs) (suc i) h = get_elem?_beyond xs i (omega arith)

  -- What is behind one slot that is written.
  pub cells-set_last :
      (c h : ℕ) (buffer : List (Option A)) (xs : List A) (a : A)
      → length buffer ≡ c
      → h < c
      → length xs < c
      → ((i : ℕ) → i < c → get_elem? buffer ((h + i) % c) ≡ some (get_elem? xs i))
      → (i : ℕ) → i < c
      → get_elem? (set buffer ((h + length xs) % c) (some a)) ((h + i) % c)
        ≡ some (get_elem? (xs ++ a ∷ []) i)
  cells-set_last c h buffer xs a size hh hn cells i hi = elim (ℕ_discrete i (length xs)) [
    | yes e ↦
        rw (e, get_elem?-append_last xs a)
          (get_elem?-set_self buffer ((h + length xs) % c) (some a)
            (omega (arith, size, mod-lt (h + length xs) {m = c} (omega arith))))
    | no ne ↦
        get_elem?-set_ne buffer (some a)
          (λ e. ne (wrap_injective c h i (length xs) hh hi hn (sym e)))
        ∙ cells i hi
        ∙ sym (ap some (get_elem?-append_ne xs a i ne))
  ]

  pub cells-clear_first :
      (c h : ℕ) (buffer : List (Option A)) (x : A) (xs : List A)
      → length buffer ≡ c
      → h < c
      → suc (length xs) < c
      → ((i : ℕ) → i < c → get_elem? buffer ((h + i) % c) ≡ some (get_elem? (x ∷ xs) i))
      → (i : ℕ) → i < c
      → get_elem? (set buffer h none) (((h + 1) % c + i) % c) ≡ some (get_elem? xs i)
  cells-clear_first c h buffer x xs size hh hn cells i hi = elim (dec_lt (suc i) c) [
    | yes p ↦ rw (wrap_next c h i) (
        get_elem?-set_ne buffer none (λ e. absurd (omega (arith, (empty_iff c h (suc i) hh p).0 e)))
        ∙ cells (suc i) p)
    | no p ↦
        let last : suc i ≡ c = omega arith in
        rw (wrap_next c h i, last, mod_self_add c h hh)
          (get_elem?-set_self buffer h none (omega (arith, size))
            ∙ sym (ap some (get_elem?_beyond xs i (omega arith))))
  ]
