-- ===== src/Cache/Slot.antt =====
-- One slot over any sequence of `put` and `take`: which frame is handed out, and that no frame is
-- lost without being counted.
use flowkernel.Base.{
  ℕ, suc, ◌+◌, ◌^◌, ◌<◌, ◌≡◌, refl, ap, ap₂, ◌∙◌, List, [], ◌∷◌, Option, none, some, arith, length,
  if◌then◌else◌,
}
use flowkernel.Hash.{Bytes}
use flowkernel.Cache.{LatestSampleSlot, Sample, put, take}

pub data SlotOp : Type 0 where
  puts : ℕ → Bytes → ℕ → SlotOp
  takes : SlotOp

abbrev pub handed : Option Sample → List Sample → List Sample
handed none xs = xs
handed (some x) xs = x ∷ xs

-- The samples handed out, in order, and the slot at the end.
unfoldable pub slot_run : LatestSampleSlot → List SlotOp → List Sample × LatestSampleSlot
slot_run s [] = ([], s)
slot_run s (puts hash bytes now ∷ ops) = slot_run (put s hash bytes now) ops
slot_run s (takes ∷ ops) =
    let (x, s') = take s in let (xs, s'') = slot_run s' ops in (handed x xs, s'')

abbrev pub pending : LatestSampleSlot → ℕ
pending s = if s.has_data then 1 else 0

abbrev pub puts_of : List SlotOp → ℕ
puts_of [] = 0
puts_of (puts hash bytes now ∷ ops) = suc (puts_of ops)
puts_of (takes ∷ ops) = puts_of ops

put_balance :
    (s : LatestSampleSlot) (hash : ℕ) (bytes : Bytes) (now : ℕ)
    → s.drop_count + pending s < 2 ^ 64
    → (put s hash bytes now).drop_count + pending (put s hash bytes now)
      ≡ s.drop_count + pending s + 1
unfolding put
put_balance s hash bytes now h = ground arith

take_balance :
    (s : LatestSampleSlot) (xs : List Sample)
    → length (handed (take s).0 xs) + (take s).1.drop_count + pending (take s).1
      ≡ length xs + s.drop_count + pending s
unfolding take
take_balance s xs = ground arith

length-handed :
    (x : Option Sample) (xs ys : List Sample)
    → length (handed x xs) + length ys ≡ length (handed x ys) + length xs
length-handed none xs ys = omega arith
length-handed (some x) xs ys = omega arith

-- As long as the drop counter cannot wrap, every frame that is put is handed out, counted as
-- dropped, or still in the slot.
pub frames_accounted :
    (ops : List SlotOp) (s : LatestSampleSlot)
    → s.drop_count + pending s + puts_of ops < 2 ^ 64
    → let (xs, s') = slot_run s ops in
      length xs + s'.drop_count + pending s' ≡ s.drop_count + pending s + puts_of ops
unfolding slot_run
frames_accounted [] s h = omega arith
frames_accounted (puts hash bytes now ∷ ops) s h =
    let b = put_balance s hash bytes now (omega arith) in
    omega (arith, b, frames_accounted ops (put s hash bytes now) (omega (arith, b, h)))
frames_accounted (takes ∷ ops) s h =
    let b = take_balance s [] in
    omega (
      arith,
      b,
      frames_accounted ops (take s).1 (omega (arith, b, h)),
      length-handed (take s).0 (slot_run (take s).1 ops).0 [],
    )

-- What a slot is to promise: one register, which a write fills and a read empties.
abbrev pub stored : LatestSampleSlot → Option Sample
stored s =
    if s.has_data
    then some (record { handler_hash = s.handler_hash; payload = s.payload; put_time = s.put_time })
    else none

unfoldable pub register_run : Option Sample → List SlotOp → List Sample
register_run o [] = []
register_run o (puts hash bytes now ∷ ops) =
    register_run (some (record { handler_hash = hash; payload = bytes; put_time = now })) ops
register_run o (takes ∷ ops) = handed o (register_run none ops)

stored-put :
    (s : LatestSampleSlot) (hash : ℕ) (bytes : Bytes) (now : ℕ)
    → stored (put s hash bytes now)
      ≡ some (record { handler_hash = hash; payload = bytes; put_time = now })
unfolding put
stored-put s hash bytes now = refl

pub stored-take : (s : LatestSampleSlot) → ((take s).0 ≡ stored s) × (stored (take s).1 ≡ none)
unfolding take
stored-take s = ground arith

-- Over any sequence of calls the slot hands out what a register would: each time the frame put
-- last, once, with its own hash and time, and nothing where no frame was put since the last time.
pub slot_run_register :
    (ops : List SlotOp) (s : LatestSampleSlot) → (slot_run s ops).0 ≡ register_run (stored s) ops
unfolding slot_run register_run
slot_run_register [] s = refl
slot_run_register (puts hash bytes now ∷ ops) s =
    slot_run_register ops (put s hash bytes now)
    ∙ ap (λ o. register_run o ops) (stored-put s hash bytes now)
slot_run_register (takes ∷ ops) s =
    let (out, left) = stored-take s in
    ap₂ handed out (slot_run_register ops (take s).1 ∙ ap (λ o. register_run o ops) left)
