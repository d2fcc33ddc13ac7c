-- ===== src/Mpsc/Capacity.antt =====
-- What the `static_assert` of the queue admits: the powers of two, and 0.
use native.Mathlib.Nat.{pow-suc, one-le-pow, mod_self}
use native.Mathlib.Decide.{ℕ_discrete}
use flowkernel.Base.{
  ℕ, zero, suc, ◌-◌, ◌*◌, ◌/◌, ◌%◌, ◌^◌, ◌≤◌, ◌<◌, ◌≡◌, ◌↔◌, ◌⊎◌, inl, inr, sym, ap, ◌∙◌, ◌==◌,
  true, arith, bit_and, sub64, ==_iff,
}
use flowkernel.Base.Bits.{bit_and_digit, bit_and_mask}
use flowkernel.Mpsc.{capacity_ok}

abbrev IsTwoPow : ℕ → Type 0
IsTwoPow c = (k : ℕ) × (c ≡ 2 ^ k)

bit_and_self : (n a : ℕ) → a ≤ n → bit_and a a ≡ a
bit_and_self n zero h = omega (arith, bit_and_mask 0 0)
bit_and_self zero (suc a) h = absurd (omega arith)
bit_and_self (suc n) (suc a) h =
    omega (arith, bit_and_digit (suc a) (suc a), bit_and_self n (suc a / 2) (omega arith))

IsTwoPow-of_and : (n c : ℕ) → c ≤ n → 0 < c → bit_and c (c - 1) ≡ 0 → IsTwoPow c
IsTwoPow-of_and zero c h pos e = absurd (omega arith)
IsTwoPow-of_and (suc n) c h pos e = elim (ℕ_discrete (c % 2) 1) [
  | yes odd ↦
      let half : (c - 1) / 2 ≡ c / 2 = omega arith in
      let rest : bit_and (c / 2) (c / 2) * 2 ≡ 0 =
        omega (arith, ap (bit_and (c / 2)) half, bit_and_digit c (c - 1), e) in
      (0, omega (arith, rest, bit_and_self (c / 2) (c / 2) (omega arith)))
  | no even ↦
      let half : (c - 1) / 2 ≡ c / 2 - 1 = omega arith in
      let rest : bit_and (c / 2) (c / 2 - 1) ≡ 0 =
        omega (arith, ap (bit_and (c / 2)) half, bit_and_digit c (c - 1), e) in
      let (k, p) = IsTwoPow-of_and n (c / 2) (omega arith) (omega arith) rest in
      (suc k, omega (arith, pow-suc 2 k, p))
]

-- A capacity that fits `size_t` passes the `static_assert` exactly when it is 0 or a power of two.
pub capacity_ok_iff :
    (c : ℕ) → c < 2 ^ 64 → (capacity_ok c ≡ true) ↔ ((c ≡ 0) ⊎ ((k : ℕ) × (c ≡ 2 ^ k)))
unfolding capacity_ok
capacity_ok_iff c h = (passes, passed)
  where
    passes : (bit_and c (sub64 c 1) == 0) ≡ true → (c ≡ 0) ⊎ IsTwoPow c
    passes e = elim (ℕ_discrete c 0) [
      | yes z ↦ inl z
      | no nz ↦
          let less : sub64 c 1 ≡ c - 1 = omega arith in
          inr (
            IsTwoPow-of_and c c (omega arith) (omega arith)
              (sym (ap (bit_and c) less) ∙ (==_iff _ _).0 e))
    ]

    passed : (c ≡ 0) ⊎ IsTwoPow c → (bit_and c (sub64 c 1) == 0) ≡ true
    passed (inl z) = rw z
    passed (inr (k, p)) =
        let pos : 0 < c = rw p (one-le-pow k 2 (omega arith)) in
        let less : sub64 c 1 ≡ c - 1 = omega arith in
        (==_iff _ _).1 (
          ap (bit_and c) (less ∙ ap (λ (t : ℕ). t - 1) p)
          ∙ bit_and_mask k c
          ∙ ap (λ (t : ℕ). t % 2 ^ k) p
          ∙ mod_self (2 ^ k))
