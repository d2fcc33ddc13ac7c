-- ===== src/Mpsc/Linear.antt =====
-- Every turn of a thread takes effect on the FIFO as a whole call, or not at all.
use flowkernel.Base.{
  ℕ, ◌+◌, ◌%◌, ◌^◌, ◌<◌, ◌≡◌, ◌≢◌, refl, sym, ap, ◌∙◌, subst, subst₂, List, [], ◌∷◌, ◌++◌, Option,
  some, Bool, true, false, arith, length, set, ◌==◌, ==_iff, if◌then◌else◌,
}
use flowkernel.Mpsc.{next_index}
use flowkernel.Mpsc.Index.{next_index_lem}
use flowkernel.Mpsc.Represents.{Represents}
use flowkernel.Mpsc.Refine.{Represents-pushed, Represents-dropped}
use flowkernel.Mpsc.Threads.{
  Producer, outside, entered, at_tail, roomy, written, refusing, leaving, Consumer, Machine,
  refused, enter, produce,
}
use flowkernel.Mpsc.Settled.{fill, punch, ProducerOk, ConsumerOk, Holds, tail_in, full_seen}
use flowkernel.Mpsc.Interleave.{IsLegal, unseen-IsLegal, ConsumerOk-pushed, write_under_way}

module _ {A : Type 0} where
  -- A producer that goes on without a write.
  Holds-producer :
      {k : ℕ} {m : Machine A} {items : List A} (p : Producer A)
      → Holds k m items
      → ((buffer : List (Option A)) → fill m.producer buffer ≡ fill p buffer)
      → ProducerOk (2 ^ k) m.queue items p
      → Holds k (record m { producer = p }) items
  Holds-producer {m} p s same ok = record {
    settled = s.settled;
    held = s.held;
    under_way = s.under_way ∙ ap (punch m.consumer) (same s.settled);
    producer_ok = ok;
    consumer_ok = s.consumer_ok;
  }

  pub Holds-consumer :
      {k : ℕ} {m : Machine A} {items : List A} (c : Consumer A)
      → Holds k m items
      → ((buffer : List (Option A)) → punch m.consumer buffer ≡ punch c buffer)
      → ConsumerOk m.queue items c
      → Holds k (record m { consumer = c }) items
  Holds-consumer {m} c s same ok = record {
    settled = s.settled;
    held = s.held;
    under_way = s.under_way ∙ same (fill m.producer s.settled);
    producer_ok = s.producer_ok;
    consumer_ok = ok;
  }

  pub enter-Holds :
      {k : ℕ} {m : Machine A} {items : List A} (a : A) (p : Producer A)
      → m.producer ≡ p
      → Holds k m items
      → Holds k (record m { producer = enter a m.producer }) items
  unfolding enter
  enter-Holds a outside e s =
      rw (e, enter) (Holds-producer (entered a) s (λ buffer. ap (λ q. fill q buffer) e) tt)
  enter-Holds a (entered b) e s = rw (e, enter) (rw (← e) s)
  enter-Holds a (at_tail b t) e s = rw (e, enter) (rw (← e) s)
  enter-Holds a (roomy b t) e s = rw (e, enter) (rw (← e) s)
  enter-Holds a (written b t) e s = rw (e, enter) (rw (← e) s)
  enter-Holds a refusing e s = rw (e, enter) (rw (← e) s)
  enter-Holds a (leaving b) e s = rw (e, enter) (rw (← e) s)

  -- The parts of a state whose producer is known.
  pub producer_facts :
      {k : ℕ} {m : Machine A} {items : List A} (p : Producer A)
      → m.producer ≡ p
      → (s : Holds k m items)
      → ProducerOk (2 ^ k) m.queue items p × (m.queue.buffer ≡ punch m.consumer (fill p s.settled))
  producer_facts {k} {m} {items} p e s = (
    subst (ProducerOk (2 ^ k) m.queue items) e s.producer_ok,
    s.under_way ∙ ap (λ q. punch m.consumer (fill q s.settled)) e,
  )

  pub consumer_facts :
      {k : ℕ} {m : Machine A} {items : List A} (c : Consumer A)
      → m.consumer ≡ c
      → (s : Holds k m items)
      → ConsumerOk m.queue items c × (m.queue.buffer ≡ punch c (fill m.producer s.settled))
  consumer_facts {k} {m} {items} c e s = (
    subst (ConsumerOk m.queue items) e s.consumer_ok,
    s.under_way ∙ ap (λ q. punch q (fill m.producer s.settled)) e,
  )

  -- The store of `tail_` makes the written item the last one.
  tail_stored :
      {k : ℕ} {m : Machine A} {items : List A} (a : A) (t : ℕ)
      → m.producer ≡ written a t
      → Holds k m items
      → Holds k (produce (2 ^ k) (written a t) m).0 (items ++ a ∷ [])
  unfolding produce
  tail_stored {k} {m} {items} a t e s =
      let ((at, room), under_way) = producer_facts (written a t) e s in
      let t_in : t < 2 ^ k = omega (arith, at, tail_in s.held) in
      let next : next_index (2 ^ k) t ≡ (m.queue.tail + 1) % 2 ^ k =
        next_index_lem k t s.held.word t_in ∙ ap (λ (i : ℕ). (i + 1) % 2 ^ k) at in
      record {
        settled = set s.settled t (some a);
        held =
            subst₂
              (λ (i n : ℕ).
                Represents k
                  (record {
                    buffer = set s.settled i (some a);
                    head = m.queue.head;
                    tail = n;
                    dropped = m.queue.dropped;
                  })
                  (record { items = items ++ a ∷ []; lost = m.queue.dropped }))
              (sym at) (sym next) (Represents-pushed a s.held room);
        under_way = under_way;
        producer_ok = tt;
        consumer_ok =
            ConsumerOk-pushed m.consumer m.queue items a (next_index (2 ^ k) t) s.consumer_ok;
      }

  -- The producer's test of `head_`.
  full_tested :
      {k : ℕ} {m : Machine A} {items : List A} {a : A} {t : ℕ} (b : Bool)
      → (next_index (2 ^ k) t == m.queue.head) ≡ b
      → m.producer ≡ at_tail a t
      → Holds k m items
      → IsLegal k items (
          if b
          then (record m { producer = refusing }, refused a ∷ [])
          else (record m { producer = roomy a t }, []))
  full_tested {k} {m} {items} {a} {t} true found e s =
      let (at, _) = producer_facts (at_tail a t) e s in
      let full : length items + 1 ≡ 2 ^ k =
        (full_seen s.held).0 (ap (next_index (2 ^ k)) (sym at) ∙ (==_iff _ _).0 found) in
      (
        items,
        Holds-producer refusing s (λ buffer. ap (λ q. fill q buffer) e) tt,
        λ later run. (omega (arith, full), run),
      )
  full_tested {k} {m} {items} {a} {t} false found e s =
      let (at, _) = producer_facts (at_tail a t) e s in
      let free : length items + 1 ≢ 2 ^ k = λ full. absurd (
        cc (
          found,
          (==_iff (next_index (2 ^ k) t) m.queue.head).1
              (ap (next_index (2 ^ k)) at ∙ (full_seen s.held).1 full),
        )) in
      unseen-IsLegal (
        Holds-producer (roomy a t) s (λ buffer. ap (λ q. fill q buffer) e)
          (at, omega (arith, free, s.held.room)))

  pub produce-IsLegal :
      {k : ℕ} {m : Machine A} {items : List A} (p : Producer A)
      → m.producer ≡ p
      → Holds k m items
      → IsLegal k items (produce (2 ^ k) p m)
  unfolding produce
  produce-IsLegal outside e s = unseen-IsLegal s
  produce-IsLegal {m} (entered a) e s =
      unseen-IsLegal
        (Holds-producer (at_tail a m.queue.tail) s (λ buffer. ap (λ q. fill q buffer) e) refl)
  produce-IsLegal {k} {m} {items} (at_tail a t) e s =
      full_tested (next_index (2 ^ k) t == m.queue.head) refl e s
  produce-IsLegal {k} {m} {items} (roomy a t) e s =
      let ((at, room), under_way) = producer_facts (roomy a t) e s in
      unseen-IsLegal (record {
        settled = s.settled;
        held = s.held;
        under_way =
            ap (λ (b : List (Option A)). set b t (some a)) under_way
            ∙ write_under_way m.consumer m.queue items m.queue.dropped t s.settled a s.held
                s.consumer_ok at;
        producer_ok = (at, room);
        consumer_ok = s.consumer_ok;
      })
  produce-IsLegal {k} {m} {items} (written a t) e s =
      let ((at, room), _) = producer_facts (written a t) e s in
      (items ++ a ∷ [], tail_stored a t e s, λ later run. (omega (arith, room), run))
  produce-IsLegal {m} refusing e s =
      let (_, under_way) = producer_facts refusing e s in
      unseen-IsLegal (record {
        settled = s.settled;
        held = Represents-dropped s.held;
        under_way = under_way;
        producer_ok = tt;
        consumer_ok = s.consumer_ok;
      })
  produce-IsLegal (leaving b) e s =
      unseen-IsLegal (Holds-producer outside s (λ buffer. ap (λ q. fill q buffer) e) tt)
