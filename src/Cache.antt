-- ===== src/Cache.antt =====
-- include/robot_dataflow/latest_cache.hpp: `LatestSampleSlot` and `LatestSampleCache`.
-- Each call holds the slot's spin lock, or the map's lock, from its first access to its last, so a
-- call is one step. A `time_point` is the number that the clock shows, given to each call.
pub mod Slot
pub mod Map
pub mod Dropped
pub mod Waiting
use flowkernel.Base.{
  ℕ, List, [], ◌∷◌, Option, none, some, Bool, true, false, add64, ltb, ◌==◌, if◌then◌else◌,
}
use flowkernel.Base.Assoc.{lookup, emplace}
use flowkernel.Hash.{Bytes}

pub record LatestSampleSlot : Type 0 where
  pub payload : Bytes
  pub has_data : Bool
  pub handler_hash : ℕ
  pub drop_count : ℕ
  pub put_time : ℕ

abbrev pub new_slot : LatestSampleSlot
new_slot = record { payload = []; has_data = false; handler_hash = 0; drop_count = 0; put_time = 0 }

-- `{handler_hash, payload, put_time}`
pub record Sample : Type 0 where
  pub handler_hash : ℕ
  pub payload : Bytes
  pub put_time : ℕ

unfoldable pub put : LatestSampleSlot → ℕ → Bytes → ℕ → LatestSampleSlot
put s hash bytes now = record {
  payload = bytes;
  has_data = true;
  handler_hash = hash;
  drop_count = if s.has_data then add64 s.drop_count 1 else s.drop_count;
  put_time = now;
}

-- A vector that has been moved from is empty.
unfoldable pub take : LatestSampleSlot → Option Sample × LatestSampleSlot
take s =
    if s.has_data
    then (
      some (record { handler_hash = s.handler_hash; payload = s.payload; put_time = s.put_time }),
      record s { has_data = false; payload = [] },
    )
    else (none, s)

-- The map as its entries, in the order in which a loop over it visits them. A pointer to a slot is
-- the slot's key: an entry is never removed and its `unique_ptr` never changed.
pub record LatestSampleCache : Type 0 where
  pub slots : List (ℕ × LatestSampleSlot)

abbrev pub new_cache : LatestSampleCache
new_cache = record { slots = [] }

unfoldable pub pre_allocate : LatestSampleCache → ℕ → LatestSampleCache
pre_allocate c hash = record { slots = emplace hash new_slot c.slots }

unfoldable pub get_slot_fast : LatestSampleCache → ℕ → Option LatestSampleSlot
get_slot_fast c hash = lookup hash c.slots

-- The lazy creation of a slot, and the pointer to it.
unfoldable pub get_slot : LatestSampleCache → ℕ → Option LatestSampleSlot × LatestSampleCache
get_slot c hash = let m = emplace hash new_slot c.slots in (lookup hash m, record { slots = m })

-- A write through the pointer to the slot of `hash`.
unfoldable pub write_slot :
    ℕ
    → (LatestSampleSlot → LatestSampleSlot)
    → List (ℕ × LatestSampleSlot)
    → List (ℕ × LatestSampleSlot)
write_slot hash f [] = []
write_slot hash f ((j, s) ∷ m) = if j == hash then (j, f s) ∷ m else (j, s) ∷ write_slot hash f m

-- The producer's path: `get_slot_fast`, the test of the pointer, `put`.
unfoldable pub put_latest : LatestSampleCache → ℕ → Bytes → ℕ → LatestSampleCache
put_latest c hash bytes now = elim (get_slot_fast c hash) [
  | none ↦ c
  | some s ↦ record { slots = write_slot hash (λ t. put t hash bytes now) c.slots }
]

-- `drain`: the consumer is called on what each slot yields; it changes a state `σ` of its own.
module _ {ℓ} {S : Type ℓ} (consumer : S → Sample → S) where
  abbrev pub consume : S → Option Sample → S
  consume σ none = σ
  consume σ (some x) = consumer σ x

  unfoldable pub drain_slots : S → List (ℕ × LatestSampleSlot) → S × List (ℕ × LatestSampleSlot)
  drain_slots σ [] = (σ, [])
  drain_slots σ ((j, s) ∷ m) =
      let (x, s') = take s in let (σ', m') = drain_slots (consume σ x) m in (σ', (j, s') ∷ m')

  unfoldable pub drain : S → LatestSampleCache → S × LatestSampleCache
  drain σ c = let (σ', m) = drain_slots σ c.slots in (σ', record { slots = m })

unfoldable pub total_dropped : ℕ → List (ℕ × LatestSampleSlot) → ℕ
total_dropped total [] = total
total_dropped total ((j, s) ∷ m) = total_dropped (add64 total s.drop_count) m

unfoldable pub get_total_dropped : LatestSampleCache → ℕ
get_total_dropped c = total_dropped 0 c.slots

-- The lines of `print_drop_stats`: a slot's key and its count, where it is not 0.
unfoldable pub drop_stats : List (ℕ × LatestSampleSlot) → List (ℕ × ℕ)
drop_stats [] = []
drop_stats ((j, s) ∷ m) =
    if ltb 0 s.drop_count then (j, s.drop_count) ∷ drop_stats m else drop_stats m

unfoldable pub print_drop_stats : LatestSampleCache → List (ℕ × ℕ)
print_drop_stats c = drop_stats c.slots
