-- ===== src/Mpsc/Index.antt =====
-- Indices that go round a power of two.
use native.Mathlib.Nat.{
  pow-le-pow_right, one-le-pow, mod-eq_of_lt, mod-eq-sub-mod, mod-add-mod, add-mod_right,
}
use native.Mathlib.Decide.{dec_lt}
use flowkernel.Base.{
  ℕ, suc, ◌+◌, ◌-◌, ◌%◌, ◌^◌, ◌≤◌, ◌<◌, ◌≡◌, ◌↔◌, ◌∙◌, ◌⊎◌, inl, inr, ap, arith, add64, sub64,
}
use flowkernel.Base.Bits.{bit_and_mask}
use flowkernel.Mpsc.{next_index}

pub two_pow_fits : (k : ℕ) → k < 64 → (0 < 2 ^ k) × (2 ^ k ≤ 2 ^ 63)
two_pow_fits k h =
    (one-le-pow k 2 (omega arith), pow-le-pow_right (omega arith) {j = 63} (omega arith))

-- The mask of `next_index` is the remainder by the capacity.
pub next_index_lem : (k i : ℕ) → k < 64 → i < 2 ^ k → next_index (2 ^ k) i ≡ (i + 1) % 2 ^ k
unfolding next_index
next_index_lem k i h hi =
    let (pos, small) = two_pow_fits k h in
    let e : add64 i 1 ≡ i + 1 = omega arith in
    let m : sub64 (2 ^ k) 1 ≡ 2 ^ k - 1 = omega arith in rw (e, m) (bit_and_mask k (i + 1))

-- A place less than `c` on: the sum, or the sum less `c`.
pub wrap_cases :
    (c h i : ℕ)
    → h < c
    → i < c
    → ((h + i < c) × ((h + i) % c ≡ h + i)) ⊎ ((c ≤ h + i) × ((h + i) % c + c ≡ h + i))
wrap_cases c h i hh hi = elim (dec_lt (h + i) c) [
  | yes p ↦ inl (p, mod-eq_of_lt p)
  | no p ↦ inr (
    omega arith,
    omega (
      arith,
      mod-eq-sub-mod {n = h + i} {m = c} (omega arith),
      mod-eq_of_lt {n = h + i - c} {m = c} (omega arith),
    ),
  )
]

-- Fewer than `c` places on from one place no two places fall together.
pub wrap_injective : (c h i j : ℕ) → h < c → i < c → j < c → (h + i) % c ≡ (h + j) % c → i ≡ j
wrap_injective c h i j hh hi hj e = omega (arith, wrap_cases c h i hh hi, wrap_cases c h j hh hj)

pub wrap_next : (c h i : ℕ) → ((h + 1) % c + i) % c ≡ (h + suc i) % c
wrap_next c h i = mod-add-mod (h + 1) c i ∙ ap (λ (t : ℕ). t % c) (omega arith)

pub mod_self_add : (c h : ℕ) → h < c → (h + c) % c ≡ h
mod_self_add c h hh = add-mod_right h c ∙ mod-eq_of_lt hh

-- The tail of `n` items has one free slot before the head exactly when `n` is one below `c`.
pub full_iff : (c h n : ℕ) → h < c → n < c → (((h + n) % c + 1) % c ≡ h) ↔ (n + 1 ≡ c)
full_iff c h n hh hn = (
  λ e. elim (dec_lt (n + 1) c) [
    | yes p ↦
        absurd
          (omega (arith, mod-add-mod (h + n) c 1, wrap_cases c h (n + 1) hh p, add_one h n c, e))
    | no p ↦ omega arith
  ],
  λ e.
      mod-add-mod (h + n) c 1 ∙ add_one h n c ∙ ap (λ (t : ℕ). (h + t) % c) e ∙ mod_self_add c h hh,
)
  where
    add_one : (h n c : ℕ) → (h + n + 1) % c ≡ (h + (n + 1)) % c
    add_one h n c = ap (λ (t : ℕ). t % c) (omega arith)

pub empty_iff : (c h n : ℕ) → h < c → n < c → (h ≡ (h + n) % c) ↔ (n ≡ 0)
empty_iff c h n hh hn =
    (λ e. omega (arith, wrap_cases c h n hh hn, e), λ e. omega (arith, wrap_cases c h n hh hn, e))
