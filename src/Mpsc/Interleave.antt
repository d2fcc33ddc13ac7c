-- ===== src/Mpsc/Interleave.antt =====
-- Producers and consumer interleaved access by access still make a FIFO.
use flowkernel.Base.{
  ℕ, ◌-◌, ◌^◌, ◌<◌, ◌≡◌, refl, sym, ap, ◌∙◌, List, [], ◌∷◌, ◌++◌, Option, none, some, arith, length,
  set, get_elem?, get_elem?-set_ne, length-append,
}
use flowkernel.Mpsc.{Queue, empty, item, fault}
use flowkernel.Mpsc.Represents.{Represents}
use flowkernel.Mpsc.Refine.{first_cell}
use flowkernel.Mpsc.Threads.{
  Producer, outside, entered, at_tail, roomy, written, refusing, leaving, Consumer, idle, at_head,
  ready, moved, Machine, Seen, accepted, refused, took,
}
use flowkernel.Mpsc.Settled.{fill, punch, ProducerOk, ConsumerOk, Holds, set_comm, ends_apart}

module _ {A : Type 0} where
  -- What a FIFO of at most `limit` items allows to be seen, from these items on.
  abbrev pub IsFifoRun : ℕ → List A → List (Seen A) → Type 0
  IsFifoRun limit items [] = Unit {0}
  IsFifoRun limit items (accepted a ∷ later) =
      (length items < limit) × IsFifoRun limit (items ++ a ∷ []) later
  IsFifoRun limit items (refused a ∷ later) = (length items ≡ limit) × IsFifoRun limit items later
  IsFifoRun limit items (took empty ∷ later) = (items ≡ []) × IsFifoRun limit items later
  IsFifoRun limit items (took (item a) ∷ later) =
      (rest : List A) × (items ≡ a ∷ rest) × IsFifoRun limit rest later
  IsFifoRun limit items (took fault ∷ later) = ⊥

  -- A turn from `items` on: what the machine holds then, so that a run of a FIFO from there on is
  -- one with what the turn let be seen in front.
  abbrev pub IsLegal : ℕ → List A → Machine A × List (Seen A) → Type 0
  IsLegal k items (m, seen) =
      (items' : List A) × Holds k m items'
      × ((later : List (Seen A))
          → IsFifoRun (2 ^ k - 1) items' later
          → IsFifoRun (2 ^ k - 1) items (seen ++ later))

  -- A turn that settles no call.
  pub unseen-IsLegal :
      {k : ℕ} {m : Machine A} {items : List A} → Holds k m items → IsLegal k items (m, [])
  unseen-IsLegal {items} s = (items, s, λ later run. run)

  -- The consumer's facts do not depend on the tail, nor on items that come behind.
  pub ConsumerOk-pushed :
      (c : Consumer A) (q : Queue A) (items : List A) (a : A) (t : ℕ)
      → ConsumerOk q items c
      → ConsumerOk (record q { tail = t }) (items ++ a ∷ []) c
  ConsumerOk-pushed idle q items a t ok = tt
  ConsumerOk-pushed (at_head h) q items a t ok = ok
  ConsumerOk-pushed (ready h) q items a t (at, some_item) =
      (at, omega (arith, length-append items (a ∷ [])))
  ConsumerOk-pushed (moved h (item x)) q items a t (at, rest, e) =
      (at, rest ++ a ∷ [], ap (λ (xs : List A). xs ++ a ∷ []) e)
  ConsumerOk-pushed (moved h empty) q items a t ok = ok
  ConsumerOk-pushed (moved h fault) q items a t ok = ok

  -- Nor do the producer's on the head, or on an item more in front.
  pub ProducerOk-popped :
      (p : Producer A) (c : ℕ) (q : Queue A) (x : A) (items : List A) (h : ℕ)
      → ProducerOk c q (x ∷ items) p
      → ProducerOk c (record q { head = h }) items p
  ProducerOk-popped outside c q x items h ok = tt
  ProducerOk-popped (entered a) c q x items h ok = tt
  ProducerOk-popped (at_tail a t) c q x items h ok = ok
  ProducerOk-popped (roomy a t) c q x items h (at, room) = (at, omega (arith, room))
  ProducerOk-popped (written a t) c q x items h (at, room) = (at, omega (arith, room))
  ProducerOk-popped refusing c q x items h ok = tt
  ProducerOk-popped (leaving b) c q x items h ok = tt

  -- The producer's write and the consumer's are to different slots.
  pub write_under_way :
      (c : Consumer A) {k : ℕ} (q : Queue A) (items : List A) (lost : ℕ) (t : ℕ)
      (settled : List (Option A)) (a : A)
      → Represents k (record q { buffer = settled }) (record { items = items; lost = lost })
      → ConsumerOk q items c
      → t ≡ q.tail
      → set (punch c settled) t (some a) ≡ punch c (set settled t (some a))
  write_under_way idle q items lost t settled a r ok e = refl
  write_under_way (at_head h) q items lost t settled a r ok e = refl
  write_under_way (ready h) q items lost t settled a r ok e = refl
  write_under_way (moved h (item x)) q items lost t settled a r (at, rest, eq) e =
      set_comm settled h t none (some a)
        (λ same. ends_apart r (omega (arith, ap length eq)) (sym at ∙ same ∙ e))
  write_under_way (moved h empty) q items lost t settled a r ok e = elim ok [ ]
  write_under_way (moved h fault) q items lost t settled a r ok e = elim ok [ ]

  pub head_under_way :
      (p : Producer A) {k : ℕ} (q : Queue A) (x : A) (items : List A) (lost h : ℕ)
      (settled : List (Option A))
      → Represents k (record q { buffer = settled }) (record { items = x ∷ items; lost = lost })
      → ProducerOk (2 ^ k) q (x ∷ items) p
      → h ≡ q.head
      → set (fill p settled) h none ≡ fill p (set settled h none)
  head_under_way outside q x items lost h settled r ok e = refl
  head_under_way (entered a) q x items lost h settled r ok e = refl
  head_under_way (at_tail a t) q x items lost h settled r ok e = refl
  head_under_way (roomy a t) q x items lost h settled r ok e = refl
  head_under_way (written a t) q x items lost h settled r (at, room) e =
      set_comm settled t h (some a) none
        (λ same. ends_apart r (omega arith) (sym e ∙ sym same ∙ at))
  head_under_way refusing q x items lost h settled r ok e = refl
  head_under_way (leaving b) q x items lost h settled r ok e = refl

  -- The consumer reads the item at the head, whatever the producer has written.
  pub item_read :
      (p : Producer A) {k : ℕ} (q : Queue A) (x : A) (items : List A) (lost h : ℕ)
      (settled : List (Option A))
      → Represents k (record q { buffer = settled }) (record { items = x ∷ items; lost = lost })
      → ProducerOk (2 ^ k) q (x ∷ items) p
      → h ≡ q.head
      → get_elem? (fill p settled) h ≡ some (some x)
  item_read outside q x items lost h settled r ok e = ap (get_elem? settled) e ∙ first_cell r
  item_read (entered a) q x items lost h settled r ok e = ap (get_elem? settled) e ∙ first_cell r
  item_read (at_tail a t) q x items lost h settled r ok e = ap (get_elem? settled) e ∙ first_cell r
  item_read (roomy a t) q x items lost h settled r ok e = ap (get_elem? settled) e ∙ first_cell r
  item_read (written a t) q x items lost h settled r (at, room) e =
      get_elem?-set_ne settled (some a) (λ same. ends_apart r (omega arith) (sym e ∙ sym same ∙ at))
      ∙ ap (get_elem? settled) e
      ∙ first_cell r
  item_read refusing q x items lost h settled r ok e = ap (get_elem? settled) e ∙ first_cell r
  item_read (leaving b) q x items lost h settled r ok e = ap (get_elem? settled) e ∙ first_cell r
