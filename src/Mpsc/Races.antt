-- ===== src/Mpsc/Races.antt =====
-- The slots that the threads access: an object is constructed only where none lives, and moved out
-- only where one does, and the two are never the same slot.
use flowkernel.Base.{
  ℕ, ◌^◌, ◌<◌, ◌≡◌, ◌≢◌, refl, sym, ap, ◌∙◌, subst, List, [], ◌∷◌, Option, none, some, arith,
  length, get_elem?, get_elem?-set_ne,
}
use flowkernel.Mpsc.{Queue, item, empty, fault}
use flowkernel.Mpsc.Fifo.{Fifo}
use flowkernel.Mpsc.Represents.{Represents, get_elem?_beyond}
use flowkernel.Mpsc.Threads.{
  Producer, outside, entered, at_tail, roomy, written, refusing, leaving, Consumer, idle, at_head,
  ready, moved, Machine, Turn, new_machine, after_turns,
}
use flowkernel.Mpsc.Settled.{punch, ProducerOk, ConsumerOk, Holds, ends_apart}
use flowkernel.Mpsc.Interleave.{item_read}
use flowkernel.Mpsc.Linear.{producer_facts, consumer_facts}
use flowkernel.Mpsc.Consume.{turn-IsLegal, new_machine-Holds}

-- Two slots that are in use are different ones.
abbrev pub AreApart : Option ℕ → Option ℕ → Type 0
AreApart (some t) (some h) = t ≢ h
AreApart _ _ = Unit {0}

AreApart-intro : (o o' : Option ℕ) → ((t h : ℕ) → o ≡ some t → o' ≡ some h → t ≢ h) → AreApart o o'
AreApart-intro (some t) (some h) apart = apart t h refl refl
AreApart-intro (some t) none apart = tt
AreApart-intro none o' apart = tt

module _ {A : Type 0} where
  -- The slot that the producer constructs an item in, until it has stored `tail_`, and the one that
  -- the consumer moves an item out of, until it has stored `head_`.
  abbrev pub producer_slot : Producer A → Option ℕ
  producer_slot (roomy a t) = some t
  producer_slot (written a t) = some t
  producer_slot _ = none

  abbrev pub consumer_slot : Consumer A → Option ℕ
  consumer_slot (ready h) = some h
  consumer_slot (moved h x) = some h
  consumer_slot _ = none

  -- Before it writes, the producer's slot is in the ring and holds no object; before it moves, the
  -- consumer's holds one.
  abbrev pub WritesFree : Producer A → List (Option A) → Type 0
  WritesFree (roomy a t) buffer = get_elem? buffer t ≡ some none
  WritesFree _ buffer = Unit {0}

  abbrev pub ReadsLive : Consumer A → List (Option A) → Type 0
  ReadsLive (ready h) buffer = (a : A) × (get_elem? buffer h ≡ some (some a))
  ReadsLive _ buffer = Unit {0}

  producer_at_tail :
      (p : Producer A) (c : ℕ) (q : Queue A) (items : List A) (t : ℕ)
      → ProducerOk c q items p
      → producer_slot p ≡ some t
      → t ≡ q.tail
  producer_at_tail (roomy a t') c q items t (at, room) e = cc
  producer_at_tail (written a t') c q items t (at, room) e = cc
  producer_at_tail outside c q items t ok e = cc
  producer_at_tail (entered a) c q items t ok e = cc
  producer_at_tail (at_tail a t') c q items t ok e = cc
  producer_at_tail refusing c q items t ok e = cc
  producer_at_tail (leaving b) c q items t ok e = cc

  consumer_at_head :
      (c : Consumer A) (q : Queue A) (items : List A) (h : ℕ)
      → ConsumerOk q items c
      → consumer_slot c ≡ some h
      → (h ≡ q.head) × (0 < length items)
  consumer_at_head (ready h') q items h (at, some_item) e = (cc, some_item)
  consumer_at_head (moved h' (item a)) q items h (at, rest, eq) e =
      (cc, omega (arith, ap length eq))
  consumer_at_head (moved h' empty) q items h ok e = elim ok [ ]
  consumer_at_head (moved h' fault) q items h ok e = elim ok [ ]
  consumer_at_head idle q items h ok e = cc
  consumer_at_head (at_head h') q items h ok e = cc

  slots_apart :
      {k : ℕ} {m : Machine A} {items : List A}
      → Holds k m items
      → AreApart (producer_slot m.producer) (consumer_slot m.consumer)
  slots_apart {k} {m} {items} s =
      AreApart-intro (producer_slot m.producer) (consumer_slot m.consumer) (λ t h et eh same.
        let at_tail' = producer_at_tail m.producer (2 ^ k) m.queue items t s.producer_ok et in
        let (at_head', some_item) = consumer_at_head m.consumer m.queue items h s.consumer_ok eh in
        ends_apart s.held some_item (sym at_head' ∙ sym same ∙ at_tail'))

  free_cell :
      {k : ℕ} {q : Queue A} {f : Fifo A} → Represents k q f → get_elem? q.buffer q.tail ≡ some none
  free_cell {k} {q} {f} r =
      ap (get_elem? q.buffer) r.tail_at
      ∙ r.cells (length f.items) r.room
      ∙ ap some (get_elem?_beyond f.items (length f.items) (omega arith))

  -- A slot that the consumer has emptied, or not touched, is as empty as before.
  punch_free :
      (c : Consumer A) (buffer : List (Option A)) (t : ℕ)
      → AreApart (some t) (consumer_slot c)
      → get_elem? buffer t ≡ some none
      → get_elem? (punch c buffer) t ≡ some none
  punch_free idle buffer t apart e = e
  punch_free (at_head h) buffer t apart e = e
  punch_free (ready h) buffer t apart e = e
  punch_free (moved h x) buffer t apart e =
      get_elem?-set_ne buffer none (λ same. apart (sym same)) ∙ e

  producer_free :
      {k : ℕ} {m : Machine A} {items : List A} (p : Producer A)
      → m.producer ≡ p
      → Holds k m items
      → WritesFree p m.queue.buffer
  producer_free {k} {m} {items} (roomy a t) e s =
      let ((at, _), under_way) = producer_facts (roomy a t) e s in
      let apart =
        subst (λ q. AreApart (producer_slot q) (consumer_slot m.consumer)) e (slots_apart s) in
      ap (λ (b : List (Option A)). get_elem? b t) under_way
      ∙ punch_free m.consumer s.settled t apart (ap (get_elem? s.settled) at ∙ free_cell s.held)
  producer_free outside e s = tt
  producer_free (entered a) e s = tt
  producer_free (at_tail a t) e s = tt
  producer_free (written a t) e s = tt
  producer_free refusing e s = tt
  producer_free (leaving b) e s = tt

  consumer_live :
      {k : ℕ} {m : Machine A} (items : List A) (c : Consumer A)
      → m.consumer ≡ c
      → Holds k m items
      → ReadsLive c m.queue.buffer
  consumer_live {m} [] (ready h) e s =
      let ((_, some_item), _) = consumer_facts (ready h) e s in absurd (omega (arith, some_item))
  consumer_live {m} (x ∷ items) (ready h) e s =
      let ((at, _), under_way) = consumer_facts (ready h) e s in
      (
        x,
        ap (λ (b : List (Option A)). get_elem? b h) under_way
            ∙ item_read m.producer m.queue x items m.queue.dropped h s.settled s.held s.producer_ok
                at,
      )
  consumer_live items idle e s = tt
  consumer_live items (at_head h) e s = tt
  consumer_live items (moved h x) e s = tt

  after_turns-Holds :
      {k : ℕ} (turns : List (Turn A)) {m : Machine A} {items : List A}
      → Holds k m items
      → (items' : List A) × Holds k (after_turns (2 ^ k) turns m) items'
  unfolding after_turns
  after_turns-Holds [] {items} s = (items, s)
  after_turns-Holds (t ∷ turns) s = let (_, s', _) = turn-IsLegal t s in after_turns-Holds turns s'

  -- However producers and the consumer interleave their accesses to a new ring of `2 ^ k` slots,
  -- `k` below 64: a producer that is about to construct an item does so in a slot of the ring where
  -- no object lives, the consumer that is about to move one out finds an object in its slot, and
  -- while both are at their slots, the producer until it has stored `tail_` and the consumer until
  -- it has stored `head_`, these are different ones.
  pub slots_safe :
      (k : ℕ) (turns : List (Turn A))
      → k < 64
      → let m = after_turns (2 ^ k) turns (new_machine {A = A} (2 ^ k)) in
        WritesFree m.producer m.queue.buffer
        × ReadsLive m.consumer m.queue.buffer
        × AreApart (producer_slot m.producer) (consumer_slot m.consumer)
  slots_safe k turns h =
      let (items, s) = after_turns-Holds turns (new_machine-Holds k h) in
      (producer_free _ refl s, consumer_live items _ refl s, slots_apart s)
