-- ===== src/Mpsc/Consume.antt =====
-- The consumer's turns, and any sequence of turns of all threads.
use flowkernel.Base.{
  ℕ, ◌+◌, ◌-◌, ◌%◌, ◌^◌, ◌<◌, ◌≡◌, ◌≢◌, refl, sym, ap, ◌∙◌, subst, subst₂, List, [], ◌∷◌, Option,
  none, some, Bool, true, false, arith, length, set, get_elem?, ◌==◌, ==_iff, if◌then◌else◌,
}
use flowkernel.Mpsc.{empty, item, fault, new_queue, next_index}
use flowkernel.Mpsc.Index.{next_index_lem}
use flowkernel.Mpsc.Represents.{Represents}
use flowkernel.Mpsc.Refine.{new_queue-Represents, Represents-popped}
use flowkernel.Mpsc.Threads.{
  Consumer, idle, at_head, ready, moved, Machine, Turn, enters, produces, consumes, took,
  new_machine, take_turn, turn, interleave,
}
use flowkernel.Mpsc.Settled.{punch, ProducerOk, Holds, empty_seen}
use flowkernel.Mpsc.Interleave.{
  IsFifoRun, IsLegal, unseen-IsLegal, ProducerOk-popped, head_under_way, item_read,
}
use flowkernel.Mpsc.Linear.{Holds-consumer, enter-Holds, consumer_facts, produce-IsLegal}

module _ {A : Type 0} where
  -- The store of `head_` takes the item away.
  head_stored :
      {k : ℕ} {m : Machine A} {items rest : List A} (a : A) (h : ℕ)
      → m.consumer ≡ moved h (item a)
      → items ≡ a ∷ rest
      → Holds k m items
      → Holds k (take_turn (2 ^ k) (moved h (item a)) m).0 rest
  unfolding take_turn
  head_stored {k} {m} {items} {rest} a h e eq s =
      let ((at, _, _), under_way) = consumer_facts (moved h (item a)) e s in
      let next : next_index (2 ^ k) h ≡ (m.queue.head + 1) % 2 ^ k =
        ap (next_index (2 ^ k)) at ∙ next_index_lem k m.queue.head s.held.word s.held.head_in in
      let held : Represents k (record m.queue { buffer = s.settled })
          (record { items = a ∷ rest; lost = m.queue.dropped }) =
        subst
          (λ (xs : List A).
            Represents k (record m.queue { buffer = s.settled })
              (record { items = xs; lost = m.queue.dropped }))
          eq s.held in
      let ok : ProducerOk (2 ^ k) m.queue (a ∷ rest) m.producer =
        subst (λ (xs : List A). ProducerOk (2 ^ k) m.queue xs m.producer) eq s.producer_ok in
      record {
        settled = set s.settled h none;
        held =
            subst₂
              (λ (i n : ℕ).
                Represents k
                  (record {
                    buffer = set s.settled i none;
                    head = n;
                    tail = m.queue.tail;
                    dropped = m.queue.dropped;
                  })
                  (record { items = rest; lost = m.queue.dropped }))
              (sym at) (sym next) (Represents-popped held);
        under_way =
            under_way
            ∙ head_under_way m.producer m.queue a rest m.queue.dropped h s.settled held ok at;
        producer_ok = ProducerOk-popped m.producer (2 ^ k) m.queue a rest (next_index (2 ^ k) h) ok;
        consumer_ok = tt;
      }

  -- The consumer moves the item at the head out of its slot.
  item_moved :
      {k : ℕ} {m : Machine A} (items : List A) (h : ℕ)
      → m.consumer ≡ ready h
      → Holds k m items
      → Holds k (take_turn (2 ^ k) (ready h) m).0 items
  unfolding take_turn
  item_moved [] h e s =
      let ((_, some_item), _) = consumer_facts (ready h) e s in absurd (omega (arith, some_item))
  item_moved {m} (x ∷ items) h e s =
      let ((at, _), under_way) = consumer_facts (ready h) e s in
      let read : get_elem? m.queue.buffer h ≡ some (some x) =
        ap (λ (b : List (Option A)). get_elem? b h) under_way
        ∙ item_read m.producer m.queue x items m.queue.dropped h s.settled s.held s.producer_ok
            at in
      rw read (record {
        settled = s.settled;
        held = s.held;
        under_way = ap (λ (b : List (Option A)). set b h none) under_way;
        producer_ok = s.producer_ok;
        consumer_ok = (at, items, refl);
      })

  -- The consumer's test of `tail_`.
  empty_tested :
      {k : ℕ} {m : Machine A} {items : List A} {h : ℕ} (b : Bool)
      → (h == m.queue.tail) ≡ b
      → m.consumer ≡ at_head h
      → Holds k m items
      → IsLegal k items (
          if b
          then (record m { consumer = idle }, took empty ∷ [])
          else (record m { consumer = ready h }, []))
  empty_tested {k} {m} {items} {h} true found e s =
      let (at, _) = consumer_facts (at_head h) e s in
      let none_left : length items ≡ 0 = (empty_seen s.held).0 (sym at ∙ (==_iff _ _).0 found) in
      (
        items,
        Holds-consumer idle s (λ buffer. ap (λ q. punch q buffer) e) tt,
        λ later run. (no_length items none_left, run),
      )
    where
      no_length : (xs : List A) → length xs ≡ 0 → xs ≡ []
      no_length [] h = refl
      no_length (x ∷ xs) h = absurd (omega arith)
  empty_tested {k} {m} {items} {h} false found e s =
      let (at, _) = consumer_facts (at_head h) e s in
      let some_left : length items ≢ 0 = λ none_left.
        absurd (cc (found, (==_iff h m.queue.tail).1 (at ∙ (empty_seen s.held).1 none_left))) in
      unseen-IsLegal (
        Holds-consumer (ready h) s (λ buffer. ap (λ q. punch q buffer) e)
          (at, omega (arith, some_left)))

  take_turn-IsLegal :
      {k : ℕ} {m : Machine A} {items : List A} (c : Consumer A)
      → m.consumer ≡ c
      → Holds k m items
      → IsLegal k items (take_turn (2 ^ k) c m)
  unfolding take_turn
  take_turn-IsLegal {m} {items} idle e s =
      unseen-IsLegal
        (Holds-consumer (at_head m.queue.head) s (λ buffer. ap (λ q. punch q buffer) e) refl)
  take_turn-IsLegal {m} (at_head h) e s = empty_tested (h == m.queue.tail) refl e s
  take_turn-IsLegal {items} (ready h) e s = unseen-IsLegal (item_moved items h e s)
  take_turn-IsLegal (moved h (item a)) e s =
      let ((_, rest, eq), _) = consumer_facts (moved h (item a)) e s in
      (rest, head_stored a h e eq s, λ later run. (rest, eq, run))
  take_turn-IsLegal (moved h empty) e s = absurd (consumer_facts (moved h empty) e s).0
  take_turn-IsLegal (moved h fault) e s = absurd (consumer_facts (moved h fault) e s).0

  pub turn-IsLegal :
      {k : ℕ} (t : Turn A) {m : Machine A} {items : List A}
      → Holds k m items
      → IsLegal k items (turn (2 ^ k) t m)
  unfolding turn
  turn-IsLegal (enters a) {m} s = unseen-IsLegal (enter-Holds a m.producer refl s)
  turn-IsLegal produces {m} s = produce-IsLegal m.producer refl s
  turn-IsLegal consumes {m} s = take_turn-IsLegal m.consumer refl s

  turns_legal :
      {k : ℕ} (turns : List (Turn A)) {m : Machine A} {items : List A}
      → Holds k m items
      → IsFifoRun (2 ^ k - 1) items (interleave (2 ^ k) turns m)
  unfolding interleave
  turns_legal [] s = tt
  turns_legal (t ∷ turns) {m} s =
      let (items', s', extend) = turn-IsLegal t s in extend _ (turns_legal turns s')

  pub new_machine-Holds : (k : ℕ) → k < 64 → Holds k (new_machine {A = A} (2 ^ k)) []
  unfolding new_queue
  new_machine-Holds k h = record {
    settled = (new_queue (2 ^ k)).buffer;
    held = new_queue-Represents k h;
    under_way = refl;
    producer_ok = tt;
    consumer_ok = tt;
  }

  -- However producers and the consumer interleave their accesses to a new ring of `2 ^ k` slots,
  -- `k` below 64: in the order in which the calls take effect they are the calls of a FIFO of at
  -- most `2 ^ k - 1` items. An item is accepted only with room for it and refused only without,
  -- `pop` takes the oldest item or finds that there is none, and never reads a slot without an
  -- item.
  pub interleave-IsFifoRun :
      (k : ℕ) (turns : List (Turn A))
      → k < 64
      → IsFifoRun (2 ^ k - 1) [] (interleave (2 ^ k) turns (new_machine (2 ^ k)))
  interleave-IsFifoRun k turns h = turns_legal turns (new_machine-Holds k h)
