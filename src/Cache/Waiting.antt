-- ===== src/Cache/Waiting.antt =====
-- How many frames wait in the slots, and whose they are.
use flowkernel.Base.{
  ℕ, zero, suc, ◌+◌, ◌≡◌, refl, sym, ap, subst, ◌∙◌, List, [], ◌∷◌, Option, none, some, true, arith,
  add64, ◌==◌, get_elem?, set, Option-cases, Bool-cases, inl, inr,
}
use flowkernel.Base.Assoc.{lookup, emplace}
use flowkernel.Hash.{Bytes}
use flowkernel.Cache.{
  new_slot, pre_allocate, LatestSampleSlot, put, LatestSampleCache, get_slot_fast, write_slot,
  put_latest, total_dropped, get_total_dropped,
}
use flowkernel.Cache.Slot.{pending}
use flowkernel.Cache.Dropped.{overwrites}

abbrev pub waiting_frames : List (ℕ × LatestSampleSlot) → ℕ
waiting_frames [] = 0
waiting_frames ((j, s) ∷ m) = pending s + waiting_frames m

-- 1 if there is a slot.
abbrev pub present : Option LatestSampleSlot → ℕ
present none = 0
present (some s) = 1

waiting-put :
    (s : LatestSampleSlot) (hash : ℕ) (bytes : Bytes) (now : ℕ) → pending (put s hash bytes now) ≡ 1
unfolding put
waiting-put s hash bytes now = refl

waiting-write :
    (m : List (ℕ × LatestSampleSlot)) (hash : ℕ) (bytes : Bytes) (now : ℕ)
    → waiting_frames (write_slot hash (λ t. put t hash bytes now) m) + overwrites (lookup hash m)
      ≡ waiting_frames m + present (lookup hash m)
unfolding write_slot lookup
waiting-write [] hash bytes now = refl
waiting-write ((j, s) ∷ m) hash bytes now = elim (Bool-cases (j == hash)) [
  | inl hit ↦ rw hit (omega (arith, waiting-put s hash bytes now))
  | inr miss ↦ rw miss (omega (arith, waiting-write m hash bytes now))
]

-- A frame that is put waits, in place of one that waited there.
pub waiting-put_latest :
    (c : LatestSampleCache) (hash : ℕ) (bytes : Bytes) (now : ℕ)
    → waiting_frames (put_latest c hash bytes now).slots + overwrites (get_slot_fast c hash)
      ≡ waiting_frames c.slots + present (get_slot_fast c hash)
unfolding put_latest get_slot_fast
waiting-put_latest c hash bytes now = elim (Option-cases (lookup hash c.slots)) [
  | inl e ↦ rw (e, put_latest) refl
  | inr (s, e) ↦
      rw (e, put_latest)
        (ap
            (λ o.
              waiting_frames (write_slot hash (λ t. put t hash bytes now) c.slots) + overwrites o)
            (sym e)
          ∙ waiting-write c.slots hash bytes now
          ∙ ap (λ o. waiting_frames c.slots + present o) e)
]

-- One slot changed in its place.
pub waiting-set :
    (m : List (ℕ × LatestSampleSlot)) (n j : ℕ) (s s' : LatestSampleSlot)
    → get_elem? m n ≡ some (j, s)
    → waiting_frames (set m n (j, s')) + pending s ≡ waiting_frames m + pending s'
waiting-set [] n j s s' e = cc
waiting-set ((i, t) ∷ m) zero j s s' e =
    let same : pending t ≡ pending s =
      ap (λ (o : Option (ℕ × LatestSampleSlot)). elim o [ none ↦ 0 | some x ↦ pending x.1 ]) e in
    omega (arith, same)
waiting-set ((i, t) ∷ m) (suc n) j s s' e = omega (arith, waiting-set m n j s s' e)

total_dropped-set :
    (m : List (ℕ × LatestSampleSlot)) (total n j : ℕ) (s s' : LatestSampleSlot)
    → get_elem? m n ≡ some (j, s)
    → s'.drop_count ≡ s.drop_count
    → total_dropped total (set m n (j, s')) ≡ total_dropped total m
unfolding total_dropped
total_dropped-set [] total n j s s' e same = cc
total_dropped-set ((i, t) ∷ m) total zero j s s' e same =
    let at : t.drop_count ≡ s.drop_count =
      ap (λ (o : Option (ℕ × LatestSampleSlot)). elim o [ none ↦ 0 | some x ↦ x.1.drop_count ]) e in
    ap (λ d. total_dropped (add64 total d) m) (same ∙ sym at)
total_dropped-set ((i, t) ∷ m) total (suc n) j s s' e same =
    total_dropped-set m (add64 total t.drop_count) n j s s' e same

pub get_total_dropped-set :
    (c : LatestSampleCache) (n j : ℕ) (s s' : LatestSampleSlot)
    → get_elem? c.slots n ≡ some (j, s)
    → s'.drop_count ≡ s.drop_count
    → get_total_dropped (record { slots = set c.slots n (j, s') }) ≡ get_total_dropped c
unfolding get_total_dropped
get_total_dropped-set c n j s s' e same = total_dropped-set c.slots 0 n j s s' e same

module _ (known : ℕ → Type 0) where
  -- The keys are known, and the frames that wait are of known topics.
  abbrev pub SlotKnown : ℕ × LatestSampleSlot → Type 0
  SlotKnown (j, s) = known j × (s.has_data ≡ true → known s.handler_hash)

  abbrev pub AllKnown : List (ℕ × LatestSampleSlot) → Type 0
  AllKnown [] = Unit {0}
  AllKnown (x ∷ m) = SlotKnown x × AllKnown m

  pub AllKnown-write :
      (m : List (ℕ × LatestSampleSlot)) (hash : ℕ) (bytes : Bytes) (now : ℕ)
      → AllKnown m
      → AllKnown (write_slot hash (λ t. put t hash bytes now) m)
  unfolding write_slot put
  AllKnown-write [] hash bytes now h = tt
  AllKnown-write ((j, s) ∷ m) hash bytes now (here, rest) = elim (Bool-cases (j == hash)) [
    | inl hit ↦ rw hit ((here.0, λ _. subst known (ground (arith, hit)) here.0), rest)
    | inr miss ↦ rw miss (here, AllKnown-write m hash bytes now rest)
  ]

  pub AllKnown-put_latest :
      (c : LatestSampleCache) (hash : ℕ) (bytes : Bytes) (now : ℕ)
      → AllKnown c.slots
      → AllKnown (put_latest c hash bytes now).slots
  unfolding put_latest get_slot_fast
  AllKnown-put_latest c hash bytes now h = elim (Option-cases (lookup hash c.slots)) [
    | inl e ↦ rw (e, put_latest) h
    | inr (s, e) ↦ rw (e, put_latest) (AllKnown-write c.slots hash bytes now h)
  ]

  pub AllKnown-at :
      (m : List (ℕ × LatestSampleSlot)) (n : ℕ) {x : ℕ × LatestSampleSlot}
      → get_elem? m n ≡ some x
      → AllKnown m
      → SlotKnown x
  AllKnown-at [] n e h = cc
  AllKnown-at (x ∷ m) zero e (here, rest) =
      subst
        (λ (o : Option (ℕ × LatestSampleSlot)). elim o [ none ↦ Unit {0} | some y ↦ SlotKnown y ]) e
        here
  AllKnown-at (x ∷ m) (suc n) e (here, rest) = AllKnown-at m n e rest

  pub AllKnown-set :
      (m : List (ℕ × LatestSampleSlot)) (n : ℕ) (x : ℕ × LatestSampleSlot)
      → SlotKnown x
      → AllKnown m
      → AllKnown (set m n x)
  AllKnown-set [] n x k h = tt
  AllKnown-set (y ∷ m) zero x k (here, rest) = (k, rest)
  AllKnown-set (y ∷ m) (suc n) x k (here, rest) = (here, AllKnown-set m n x k rest)

waiting-emplace :
    (m : List (ℕ × LatestSampleSlot)) (hash : ℕ)
    → waiting_frames (emplace hash new_slot m) ≡ waiting_frames m
unfolding emplace
waiting-emplace [] hash = refl
waiting-emplace ((j, s) ∷ m) hash = elim (Bool-cases (j == hash)) [
  | inl hit ↦ rw hit
  | inr miss ↦ rw miss (omega (arith, waiting-emplace m hash))
]

pub waiting-pre_allocate :
    (c : LatestSampleCache) (hash : ℕ)
    → waiting_frames (pre_allocate c hash).slots ≡ waiting_frames c.slots
unfolding pre_allocate
waiting-pre_allocate c hash = waiting-emplace c.slots hash

module _ (known : ℕ → Type 0) where
  AllKnown-emplace :
      (m : List (ℕ × LatestSampleSlot)) (hash : ℕ)
      → known hash
      → AllKnown known m
      → AllKnown known (emplace hash new_slot m)
  unfolding emplace
  AllKnown-emplace [] hash k h = ((k, λ e. cc), tt)
  AllKnown-emplace ((j, s) ∷ m) hash k (here, rest) = elim (Bool-cases (j == hash)) [
    | inl hit ↦ rw hit (here, rest)
    | inr miss ↦ rw miss (here, AllKnown-emplace m hash k rest)
  ]

  pub AllKnown-pre_allocate :
      (c : LatestSampleCache) (hash : ℕ)
      → known hash
      → AllKnown known c.slots
      → AllKnown known (pre_allocate c hash).slots
  unfolding pre_allocate
  AllKnown-pre_allocate c hash k h = AllKnown-emplace c.slots hash k h
