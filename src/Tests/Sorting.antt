-- ===== src/Tests/Sorting.antt =====
-- Insertion sort on whole microseconds, with shares in whole percent, for the statistics.
use flowkernel.Base.{
  ℕ, zero, suc, ◌+◌, ◌*◌, ◌/◌, ◌≤◌, ◌≡◌, refl, ap, ◌∙◌, List, [], ◌∷◌, some, arith, leb,
  if◌then◌else◌, length, get_elem?, Bool-cases, inl, inr,
}
use flowkernel.Reactor.Stats.{Floats}

abbrev pub insert : ℕ → List ℕ → List ℕ
insert x [] = x ∷ []
insert x (y ∷ ys) = if leb x y then x ∷ y ∷ ys else y ∷ insert x ys

abbrev pub sort : List ℕ → List ℕ
sort [] = []
sort (x ∷ xs) = insert x (sort xs)

length-insert : (x : ℕ) (ys : List ℕ) → length (insert x ys) ≡ suc (length ys)
length-insert x [] = refl
length-insert x (y ∷ ys) = ground (arith, length-insert x ys)

pub length-sort : (xs : List ℕ) → length (sort xs) ≡ length xs
length-sort [] = refl
length-sort (x ∷ xs) = length-insert x (sort xs) ∙ ap suc (length-sort xs)

-- Every element is at least `m`.
abbrev pub IsAbove : ℕ → List ℕ → Type 0
IsAbove m [] = Unit {0}
IsAbove m (y ∷ ys) = (m ≤ y) × IsAbove m ys

abbrev pub IsOrdered : List ℕ → Type 0
IsOrdered [] = Unit {0}
IsOrdered (y ∷ ys) = IsAbove y ys × IsOrdered ys

IsAbove-trans : (m n : ℕ) (ys : List ℕ) → m ≤ n → IsAbove n ys → IsAbove m ys
IsAbove-trans m n [] h a = tt
IsAbove-trans m n (y ∷ ys) h (first, rest) = (omega arith, IsAbove-trans m n ys h rest)

insert-IsAbove : (m x : ℕ) (ys : List ℕ) → m ≤ x → IsAbove m ys → IsAbove m (insert x ys)
insert-IsAbove m x [] h a = (h, tt)
insert-IsAbove m x (y ∷ ys) h (first, rest) = elim (Bool-cases (leb x y)) [
  | inl e ↦ rw e (h, (first, rest))
  | inr e ↦ rw e (first, insert-IsAbove m x ys h rest)
]

insert-IsOrdered : (x : ℕ) (ys : List ℕ) → IsOrdered ys → IsOrdered (insert x ys)
insert-IsOrdered x [] o = (tt, tt)
insert-IsOrdered x (y ∷ ys) (above, o) = elim (Bool-cases (leb x y)) [
  | inl e ↦ let le : x ≤ y = ground arith in rw e ((le, IsAbove-trans x y ys le above), (above, o))
  | inr e ↦
      let le : y ≤ x = ground arith in
      rw e (insert-IsAbove y x ys le above, insert-IsOrdered x ys o)
]

pub sort-IsOrdered : (xs : List ℕ) → IsOrdered (sort xs)
sort-IsOrdered [] = tt
sort-IsOrdered (x ∷ xs) = insert-IsOrdered x (sort xs) (sort-IsOrdered xs)

above_at : (m : ℕ) (ys : List ℕ) (j y : ℕ) → IsAbove m ys → get_elem? ys j ≡ some y → m ≤ y
above_at m [] j y a e = cc
above_at m (z ∷ ys) zero y (first, rest) e = ground arith
above_at m (z ∷ ys) (suc j) y (first, rest) e = above_at m ys j y rest e

pub ordered_at :
    (ys : List ℕ) (i j x y : ℕ)
    → IsOrdered ys
    → i ≤ j
    → get_elem? ys i ≡ some x
    → get_elem? ys j ≡ some y
    → x ≤ y
ordered_at [] i j x y o h e e' = cc
ordered_at (z ∷ ys) zero zero x y o h e e' = ground arith
ordered_at (z ∷ ys) zero (suc j) x y (above, o) h e e' =
    let le : z ≤ y = above_at z ys j y above e' in ground arith
ordered_at (z ∷ ys) (suc i) zero x y o h e e' = absurd (omega arith)
ordered_at (z ∷ ys) (suc i) (suc j) x y (above, o) h e e' =
    ordered_at ys i j x y o (omega arith) e e'

abbrev pub total : List ℕ → ℕ
total [] = 0
total (x ∷ xs) = x + total xs

abbrev pub whole_micros : Floats ℕ
whole_micros = record {
  le = ◌≤◌;
  zero_us = 0;
  sort = sort;
  mean = λ xs n. total xs / n;
  share95 = λ n. n * 95 / 100;
  share99 = λ n. n * 99 / 100;
  length-sort = length-sort;
  sort_ordered = λ xs i j x y. ordered_at (sort xs) i j x y (sort-IsOrdered xs);
  share_mono = λ n. omega arith;
}
