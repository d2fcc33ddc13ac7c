-- ===== src/Reactor/Slots.antt =====
-- Which slots `run` makes before it subscribes to anything.
use flowkernel.Base.{
  ℕ, ◌≡◌, refl, ap, ◌∙◌, List, [], ◌∷◌, Option, none, some, Bool, true, false, ◌||◌, ◌==◌,
  Bool-cases, inl, inr,
}
use flowkernel.Base.Assoc.{or_else}
use flowkernel.Hash.{Bytes}
use flowkernel.Cache.{LatestSampleCache, LatestSampleSlot, new_slot, get_slot_fast}
use flowkernel.Cache.Map.{get_slot_fast-pre_allocate}
use flowkernel.Platform.{Platform}
use flowkernel.Reactor.{
  TopicPriority, critical, normal, background, Handler, Reactor, arm_poll_eventfd,
}
use flowkernel.Reactor.Run.{pre_allocate_for, pre_allocate_all, start}

-- Whether a handler has the priority BACKGROUND and this hash.
abbrev pub is_for : ℕ → TopicPriority → ℕ → Bool
is_for hash background path_hash = path_hash == hash
is_for hash _ path_hash = false

abbrev pub wants_slot : ℕ → List Handler → Bool
wants_slot hash [] = false
wants_slot hash (h ∷ hs) = is_for hash h.priority h.path_hash || wants_slot hash hs

abbrev pub with_slot : Bool → Option LatestSampleSlot → Option LatestSampleSlot
with_slot true o = or_else o new_slot
with_slot false o = o

with_slot_twice :
    (b b' : Bool) (o : Option LatestSampleSlot)
    → with_slot b' (with_slot b o) ≡ with_slot (b || b') o
with_slot_twice false b' o = refl
with_slot_twice true true none = refl
with_slot_twice true true (some s) = refl
with_slot_twice true false o = refl

get_slot_fast-pre_allocate_for :
    (hash path_hash : ℕ) (path : Bytes) (t : TopicPriority) (c : LatestSampleCache)
    → get_slot_fast
        (pre_allocate_for (record { path = path; path_hash = path_hash; priority = t }) c)
        hash
      ≡ with_slot (is_for hash t path_hash) (get_slot_fast c hash)
unfolding pre_allocate_for
get_slot_fast-pre_allocate_for hash path_hash path critical c = refl
get_slot_fast-pre_allocate_for hash path_hash path normal c = refl
get_slot_fast-pre_allocate_for hash path_hash path background c =
    get_slot_fast-pre_allocate c path_hash hash
    ∙ (elim (Bool-cases (path_hash == hash)) [ inl hit ↦ rw hit | inr miss ↦ rw miss ])

get_slot_fast-pre_allocate_all :
    (hash : ℕ) (hs : List Handler) (c : LatestSampleCache)
    → get_slot_fast (pre_allocate_all hs c) hash
      ≡ with_slot (wants_slot hash hs) (get_slot_fast c hash)
unfolding pre_allocate_all
get_slot_fast-pre_allocate_all hash [] c = refl
get_slot_fast-pre_allocate_all hash (h ∷ hs) c =
    get_slot_fast-pre_allocate_all hash hs (pre_allocate_for h c)
    ∙ ap (with_slot (wants_slot hash hs))
        (get_slot_fast-pre_allocate_for hash h.path_hash h.path h.priority c)
    ∙ with_slot_twice (is_for hash h.priority h.path_hash) (wants_slot hash hs)
        (get_slot_fast c hash)

module _ {p : Platform} where
  -- `run` makes an empty slot for the hash of each BACKGROUND handler that has none yet, keeps
  -- every slot that is there, and makes no other: a CRITICAL or NORMAL topic has no slot of its
  -- own.
  pub start_slots :
      (keyexpr_ok subscribed : Bytes → Bool) (liveliness_key : Bytes) (submitted : Bool)
      (r : Reactor p) (hash : ℕ)
      → get_slot_fast
          (start keyexpr_ok subscribed liveliness_key submitted r).2.background_cache
          hash
        ≡ with_slot (wants_slot hash r.handlers) (get_slot_fast r.background_cache hash)
  unfolding start arm_poll_eventfd
  start_slots keyexpr_ok subscribed liveliness_key true r hash =
      get_slot_fast-pre_allocate_all hash r.handlers r.background_cache
  start_slots keyexpr_ok subscribed liveliness_key false r hash =
      get_slot_fast-pre_allocate_all hash r.handlers r.background_cache
