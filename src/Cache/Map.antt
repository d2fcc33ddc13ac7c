-- ===== src/Cache/Map.antt =====
-- The map of slots: registration, look-up, writes through a pointer, and `drain`.
use mathlib.Core.Option
use mathlib.Core.List.{foldl}
use native.Mathlib.Decide.{ℕ_discrete}
use flowkernel.Base.{
  ℕ, ◌≡◌, refl, ap, ◌∙◌, List, [], ◌∷◌, Option, none, some, arith, ◌==◌, ==_refl, if◌then◌else◌,
  Option-cases, inl, inr,
}
use flowkernel.Base.Assoc.{lookup, emplace, lookup-emplace, or_else}
use flowkernel.Hash.{Bytes}
use flowkernel.Cache.{
  LatestSampleSlot, new_slot, Sample, put, take, LatestSampleCache, pre_allocate, get_slot_fast,
  get_slot, write_slot, put_latest, consume, drain_slots, drain,
}
use flowkernel.Cache.Slot.{stored, handed, stored-take}

-- `pre_allocate` makes a slot for its own hash where there is none, and changes no slot.
pub get_slot_fast-pre_allocate :
    (c : LatestSampleCache) (hash j : ℕ)
    → get_slot_fast (pre_allocate c hash) j
      ≡ (if hash == j then or_else (get_slot_fast c j) new_slot else get_slot_fast c j)
unfolding get_slot_fast pre_allocate
get_slot_fast-pre_allocate c hash j = lookup-emplace hash j new_slot c.slots

-- `get_slot` returns the slot that was there, or a new one, and leaves the map as `pre_allocate`.
pub get_slot_lem :
    (c : LatestSampleCache) (hash : ℕ)
    → get_slot c hash ≡ (or_else (get_slot_fast c hash) new_slot, pre_allocate c hash)
unfolding get_slot get_slot_fast pre_allocate
get_slot_lem c hash =
    ap (λ o. (o, record { slots = emplace hash new_slot c.slots }))
      (lookup-emplace hash hash new_slot c.slots
        ∙ ap (λ b. if b then or_else (lookup hash c.slots) new_slot else lookup hash c.slots)
            (==_refl hash))

lookup-write_slot :
    (hash j : ℕ) (f : LatestSampleSlot → LatestSampleSlot) (m : List (ℕ × LatestSampleSlot))
    → lookup j (write_slot hash f m) ≡ (if hash == j then Option.map f (lookup j m) else lookup j m)
unfolding lookup write_slot
lookup-write_slot hash j f [] = ground arith
lookup-write_slot hash j f ((i, s) ∷ m) = ground (arith, lookup-write_slot hash j f m)

no_slot :
    (hash j : ℕ) (f : LatestSampleSlot → LatestSampleSlot) (m : List (ℕ × LatestSampleSlot))
    → lookup hash m ≡ none
    → lookup j m ≡ (if hash == j then Option.map f (lookup j m) else lookup j m)
no_slot hash j f m e = elim (ℕ_discrete hash j) [
  | yes p ↦ rw (← p, e) (ground arith)
  | no p ↦ ground arith
]

-- `put_latest` puts the frame into the slot of its hash if there is one; without one it changes
-- nothing, and it never touches another slot.
pub get_slot_fast-put_latest :
    (c : LatestSampleCache) (hash j : ℕ) (bytes : Bytes) (now : ℕ)
    → get_slot_fast (put_latest c hash bytes now) j ≡ (
        if hash == j
        then Option.map (λ s. put s hash bytes now) (get_slot_fast c j)
        else get_slot_fast c j)
unfolding get_slot_fast put_latest
get_slot_fast-put_latest c hash j bytes now = elim (Option-cases (lookup hash c.slots)) [
  | inl e ↦ rw (e, put_latest) (no_slot hash j (λ s. put s hash bytes now) c.slots e)
  | inr (s, e) ↦ rw (e, put_latest) (lookup-write_slot hash j (λ s. put s hash bytes now) c.slots)
]

-- The samples that a loop over the slots finds, in its order.
abbrev pub samples : List (ℕ × LatestSampleSlot) → List Sample
samples [] = []
samples ((j, s) ∷ m) = handed (stored s) (samples m)

abbrev pub AllEmpty : List (ℕ × LatestSampleSlot) → Type 0
AllEmpty [] = Unit {0}
AllEmpty ((j, s) ∷ m) = (stored s ≡ none) × AllEmpty m

module _ {ℓ} {S : Type ℓ} (consumer : S → Sample → S) where
  consume-handed :
      (σ : S) (x : Option Sample) (xs : List Sample)
      → foldl consumer (consume consumer σ x) xs ≡ foldl consumer σ (handed x xs)
  consume-handed σ none xs = refl
  consume-handed σ (some x) xs = refl

  drain_slots-foldl :
      (σ : S) (m : List (ℕ × LatestSampleSlot))
      → (drain_slots consumer σ m).0 ≡ foldl consumer σ (samples m)
  unfolding drain_slots
  drain_slots-foldl σ [] = refl
  drain_slots-foldl σ ((j, s) ∷ m) =
      drain_slots-foldl (consume consumer σ (take s).0) m
      ∙ consume-handed σ (take s).0 (samples m)
      ∙ ap (λ x. foldl consumer σ (handed x (samples m))) (stored-take s).0

  drain_slots_empty :
      (σ : S) (m : List (ℕ × LatestSampleSlot)) → AllEmpty (drain_slots consumer σ m).1
  unfolding drain_slots
  drain_slots_empty σ [] = tt
  drain_slots_empty σ ((j, s) ∷ m) =
      ((stored-take s).1, drain_slots_empty (consume consumer σ (take s).0) m)

  -- `drain` hands the consumer every frame that waits in a slot, each once and in the order of the
  -- map, and nothing else, and leaves every slot empty.
  pub drain_lem :
      (σ : S) (c : LatestSampleCache)
      → ((drain consumer σ c).0 ≡ foldl consumer σ (samples c.slots))
        × AllEmpty (drain consumer σ c).1.slots
  unfolding drain
  drain_lem σ c = (drain_slots-foldl σ c.slots, drain_slots_empty σ c.slots)
