-- ===== src/Reactor/Visits.antt =====
-- The rounds of the loop over the slots, with nothing between them, are `drain`.
use flowkernel.Base.{
  ℕ, suc, ◌≡◌, refl, sym, ap, ◌∙◌, List, [], ◌∷◌, ◌++◌, append_assoc, Option, none, some, length,
  replicate, get_elem?, set,
}
use flowkernel.Base.Assoc.{lookup}
use flowkernel.Cache.{LatestSampleSlot, Sample, take, consume, drain_slots, get_total_dropped}
use flowkernel.Platform.{Platform}
use flowkernel.Reactor.{Handler, Reactor}
use flowkernel.Reactor.Events.{
  bad_index, called, Event, Drained, call_background, consume_background_at, consume_background,
  count_background,
}
use flowkernel.Reactor.Live.{
  visiting, waiting, Live, proceeds, slot_round, proceed, live_turn, live,
}

module _ {ℓ} {A : Type ℓ} where
  pub get_elem?_here :
      (xs : List A) (a : A) (rest : List A) → get_elem? (xs ++ a ∷ rest) (length xs) ≡ some a
  get_elem?_here [] a rest = refl
  get_elem?_here (x ∷ xs) a rest = get_elem?_here xs a rest

  get_elem?_end : (xs : List A) → get_elem? (xs ++ []) (length xs) ≡ none
  get_elem?_end [] = refl
  get_elem?_end (x ∷ xs) = get_elem?_end xs

  set_here :
      (xs : List A) (a : A) (rest : List A) (b : A)
      → set (xs ++ a ∷ rest) (length xs) b ≡ (xs ++ b ∷ []) ++ rest
  set_here [] a rest b = refl
  set_here (x ∷ xs) a rest b = ap (◌∷◌ x) (set_here xs a rest b)

  length_snoc : (xs : List A) (a : A) → length (xs ++ a ∷ []) ≡ suc (length xs)
  length_snoc [] a = refl
  length_snoc (x ∷ xs) a = ap suc (length_snoc xs a)

module _ {p : Platform} (clock : ℕ → ℕ) (r : Reactor p) (log : List Event) where
  abbrev consumer : Drained p.Micros → Sample → Drained p.Micros
  consumer = consume_background p.micros_between clock r.handlers r.handler_index

  -- Before the slot at the place `n`, with the reactor up to date.
  abbrev pub at_slot : ℕ → Drained p.Micros → List (ℕ × LatestSampleSlot) → Live p
  at_slot n d slots = record {
    reactor = record r { background_cache = record { slots = slots }; latencies = d.latencies };
    phase = visiting n d;
    queue_log = log;
    slot_log = d.trace;
  }

  abbrev pub after_slots : Drained p.Micros × List (ℕ × LatestSampleSlot) → Live p
  after_slots (d, slots) = record {
    reactor = record r {
      background_cache = record { slots = slots };
      latencies = d.latencies;
      counters =
          count_background d.background_count (get_total_dropped (record { slots = slots }))
            r.counters;
    };
    phase = waiting;
    queue_log = log;
    slot_log = d.trace;
  }

  slot_visited :
      (n : ℕ) (d : Drained p.Micros) (slots : List (ℕ × LatestSampleSlot)) (j : ℕ)
      (s : LatestSampleSlot)
      → get_elem? slots n ≡ some (j, s)
      → proceed clock (visiting n d) (at_slot n d slots)
        ≡ at_slot (suc n) (consume consumer d (take s).0) (set slots n (j, (take s).1))
  unfolding proceed slot_round
  slot_visited n d slots j s e = rw e

  end_visited :
      (n : ℕ) (d : Drained p.Micros) (slots : List (ℕ × LatestSampleSlot))
      → get_elem? slots n ≡ none
      → proceed clock (visiting n d) (at_slot n d slots) ≡ after_slots (d, slots)
  unfolding proceed slot_round
  end_visited n d slots e = rw e

  abbrev behind :
      List (ℕ × LatestSampleSlot)
      → Drained p.Micros × List (ℕ × LatestSampleSlot)
      → Drained p.Micros × List (ℕ × LatestSampleSlot)
  behind seen (d, slots) = (d, seen ++ slots)

  -- As many rounds as there are slots left, and one that finds the end.
  slot_rounds :
      (seen rest : List (ℕ × LatestSampleSlot)) (d : Drained p.Micros)
      → live
          (replicate (suc (length rest)) (proceeds clock))
          (at_slot (length seen) d (seen ++ rest))
        ≡ after_slots (behind seen (drain_slots consumer d rest))
  unfolding live live_turn drain_slots
  slot_rounds seen [] d = end_visited (length seen) d (seen ++ []) (get_elem?_end seen)
  slot_rounds seen ((j, s) ∷ rest) d =
      let entry : ℕ × LatestSampleSlot = (j, (take s).1) in
      ap (live (replicate (suc (length rest)) (proceeds clock))) (
        slot_visited (length seen) d (seen ++ (j, s) ∷ rest) j s (get_elem?_here seen (j, s) rest)
        ∙ ap (at_slot (suc (length seen)) (consume consumer d (take s).0))
            (set_here seen (j, s) rest entry)
        ∙ ap (λ n. at_slot n (consume consumer d (take s).0) ((seen ++ entry ∷ []) ++ rest))
            (sym (length_snoc seen entry)))
      ∙ slot_rounds (seen ++ entry ∷ []) rest (consume consumer d (take s).0)
      ∙ ap
          (λ slots.
            after_slots ((drain_slots consumer (consume consumer d (take s).0) rest).0, slots))
          (append_assoc seen (entry ∷ [])
            (drain_slots consumer (consume consumer d (take s).0) rest).1)

  pub visit_rounds :
      (slots : List (ℕ × LatestSampleSlot)) (d : Drained p.Micros)
      → live (replicate (suc (length slots)) (proceeds clock)) (at_slot 0 d slots)
        ≡ after_slots (
            drain_slots
              (consume_background p.micros_between clock r.handlers r.handler_index)
              d
              slots)
  visit_rounds slots d = slot_rounds [] slots d

-- What was called before changes only the front of the trace.
module _ {L : Type 0} where
  abbrev pub called_before : List Event → Drained L → Drained L
  called_before log d = record d { trace = log ++ d.trace }

  abbrev pub both_before :
      List Event → Drained L × List (ℕ × LatestSampleSlot) → Drained L × List (ℕ × LatestSampleSlot)
  both_before log (d, slots) = (called_before log d, slots)

module _ {L : Type 0} (micros : ℕ → ℕ → L) (clock : ℕ → ℕ) (handlers : List Handler)
    (index : List (ℕ × ℕ)) where
  call_background_before :
      (log : List Event) (idx : ℕ) (h : Option Handler) (x : Sample) (d : Drained L)
      → call_background micros clock handlers index idx h x (called_before log d)
        ≡ called_before log (call_background micros clock handlers index idx h x d)
  unfolding call_background
  call_background_before log idx none x d = rw (append_assoc log d.trace (bad_index idx ∷ []))
  call_background_before log idx (some h) x d =
      rw (append_assoc log d.trace (called idx x.payload ∷ []))

  consume_background_before :
      (log : List Event) (o : Option ℕ) (x : Sample) (d : Drained L)
      → consume_background_at micros clock handlers index o (called_before log d) x
        ≡ called_before log (consume_background_at micros clock handlers index o d x)
  unfolding consume_background_at
  consume_background_before log none x d = refl
  consume_background_before log (some idx) x d =
      call_background_before log idx (get_elem? handlers idx) x d

  consume_before :
      (log : List Event) (o : Option Sample) (d : Drained L)
      → consume (consume_background micros clock handlers index) (called_before log d) o
        ≡ called_before log (consume (consume_background micros clock handlers index) d o)
  unfolding consume_background
  consume_before log none d = refl
  consume_before log (some x) d = consume_background_before log (lookup x.handler_hash index) x d

  pub drain_slots_before :
      (log : List Event) (slots : List (ℕ × LatestSampleSlot)) (d : Drained L)
      → drain_slots (consume_background micros clock handlers index) (called_before log d) slots
        ≡ both_before log (drain_slots (consume_background micros clock handlers index) d slots)
  unfolding drain_slots
  drain_slots_before log [] d = refl
  drain_slots_before log ((j, s) ∷ slots) d =
      let consumer = consume_background micros clock handlers index in
      ap (λ (t : Drained L × List (ℕ × LatestSampleSlot)). (t.0, (j, (take s).1) ∷ t.1))
        (ap (λ t. drain_slots consumer t slots) (consume_before log (take s).0 d)
          ∙ drain_slots_before log slots (consume consumer d (take s).0))
