-- ===== src/Cache/Dropped.antt =====
-- `get_total_dropped`: what registration, `put` and `drain` make of the sum of the slots' counters.
use flowkernel.Base.{
  ℕ, ◌^◌, ◌<◌, ◌≡◌, refl, ap, ◌∙◌, List, [], ◌∷◌, Option, none, some, arith, ◌==◌, add64,
  if◌then◌else◌, Option-cases, Bool-cases, inl, inr,
}
use flowkernel.Base.Assoc.{lookup, emplace}
use flowkernel.Hash.{Bytes}
use flowkernel.Cache.{
  LatestSampleSlot, new_slot, Sample, put, take, LatestSampleCache, pre_allocate, get_slot_fast,
  write_slot, put_latest, consume, drain_slots, drain, total_dropped, get_total_dropped,
}

-- 1 if a `put` into the slot of this key overwrites a frame that waits there.
abbrev pub overwrites : Option LatestSampleSlot → ℕ
overwrites none = 0
overwrites (some s) = if s.has_data then 1 else 0

total_dropped-start :
    (a b : ℕ) (m : List (ℕ × LatestSampleSlot))
    → total_dropped (add64 a b) m ≡ add64 (total_dropped a m) b
unfolding total_dropped
total_dropped-start a b [] = refl
total_dropped-start a b ((j, s) ∷ m) =
    ap (λ t. total_dropped t m) (omega arith) ∙ total_dropped-start (add64 a s.drop_count) b m

total_dropped_lt :
    (total : ℕ) (m : List (ℕ × LatestSampleSlot)) → total < 2 ^ 64 → total_dropped total m < 2 ^ 64
unfolding total_dropped
total_dropped_lt total [] h = h
total_dropped_lt total ((j, s) ∷ m) h = total_dropped_lt (add64 total s.drop_count) m (omega arith)

-- A `put` into the slot at the head of the map.
total_dropped-put :
    (total hash : ℕ) (bytes : Bytes) (now : ℕ) (m : List (ℕ × LatestSampleSlot))
    (s : LatestSampleSlot)
    → total_dropped (add64 total (put s hash bytes now).drop_count) m
      ≡ add64 (total_dropped (add64 total s.drop_count) m) (overwrites (some s))
unfolding put
total_dropped-put total hash bytes now m s = elim (Bool-cases s.has_data) [
  | inl full ↦ rw full (
      ap (λ t. total_dropped t m) (omega arith)
      ∙ total_dropped-start (add64 total s.drop_count) 1 m)
  | inr free ↦
      let fits = total_dropped_lt (add64 total s.drop_count) m (omega arith) in
      rw free (omega (arith, fits))
]

total_dropped-write :
    (m : List (ℕ × LatestSampleSlot)) (total hash : ℕ) (bytes : Bytes) (now : ℕ)
    → total < 2 ^ 64
    → total_dropped total (write_slot hash (λ t. put t hash bytes now) m)
      ≡ add64 (total_dropped total m) (overwrites (lookup hash m))
unfolding total_dropped write_slot lookup
total_dropped-write [] total hash bytes now h = omega arith
total_dropped-write ((j, s) ∷ m) total hash bytes now h = elim (Bool-cases (j == hash)) [
  | inl hit ↦ rw hit (total_dropped-put total hash bytes now m s)
  | inr miss ↦
      rw miss (total_dropped-write m (add64 total s.drop_count) hash bytes now (omega arith))
]

-- `put_latest` adds 1 to the total exactly when the slot of its hash holds a frame already.
pub get_total_dropped-put_latest :
    (c : LatestSampleCache) (hash : ℕ) (bytes : Bytes) (now : ℕ)
    → get_total_dropped (put_latest c hash bytes now)
      ≡ add64 (get_total_dropped c) (overwrites (get_slot_fast c hash))
unfolding get_total_dropped put_latest get_slot_fast
get_total_dropped-put_latest c hash bytes now = elim (Option-cases (lookup hash c.slots)) [
  | inl e ↦ rw (e, put_latest) (omega (arith, total_dropped_lt 0 c.slots (omega arith)))
  | inr (s, e) ↦
      rw (e, put_latest)
        (total_dropped-write c.slots 0 hash bytes now (omega arith)
          ∙ ap (λ o. add64 (total_dropped 0 c.slots) (overwrites o)) e)
]

total_dropped-emplace :
    (m : List (ℕ × LatestSampleSlot)) (total hash : ℕ)
    → total < 2 ^ 64
    → total_dropped total (emplace hash new_slot m) ≡ total_dropped total m
unfolding total_dropped emplace
total_dropped-emplace [] total hash h = omega arith
total_dropped-emplace ((j, s) ∷ m) total hash h = elim (Bool-cases (j == hash)) [
  | inl hit ↦ rw hit
  | inr miss ↦ rw miss (total_dropped-emplace m (add64 total s.drop_count) hash (omega arith))
]

pub get_total_dropped_lt : (c : LatestSampleCache) → get_total_dropped c < 2 ^ 64
unfolding get_total_dropped
get_total_dropped_lt c = total_dropped_lt 0 c.slots (omega arith)

-- Neither registration nor `drain` changes the total.
pub get_total_dropped-pre_allocate :
    (c : LatestSampleCache) (hash : ℕ)
    → get_total_dropped (pre_allocate c hash) ≡ get_total_dropped c
unfolding get_total_dropped pre_allocate
get_total_dropped-pre_allocate c hash = total_dropped-emplace c.slots 0 hash (omega arith)

pub drop_count-take : (s : LatestSampleSlot) → (take s).1.drop_count ≡ s.drop_count
unfolding take
drop_count-take s = ground arith

module _ {ℓ} {S : Type ℓ} (consumer : S → Sample → S) where
  total_dropped-drain_slots :
      (m : List (ℕ × LatestSampleSlot)) (σ : S) (total : ℕ)
      → total_dropped total (drain_slots consumer σ m).1 ≡ total_dropped total m
  unfolding total_dropped drain_slots
  total_dropped-drain_slots [] σ total = refl
  total_dropped-drain_slots ((j, s) ∷ m) σ total =
      total_dropped-drain_slots m (consume consumer σ (take s).0)
        (add64 total (take s).1.drop_count)
      ∙ ap (λ t. total_dropped (add64 total t) m) (drop_count-take s)

  pub get_total_dropped-drain :
      (σ : S) (c : LatestSampleCache)
      → get_total_dropped (drain consumer σ c).1 ≡ get_total_dropped c
  unfolding get_total_dropped drain
  get_total_dropped-drain σ c = total_dropped-drain_slots c.slots σ 0
