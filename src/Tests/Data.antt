-- ===== src/Tests/Data.antt =====
-- A platform, handlers, frames and reactors for the concrete runs.
use flowkernel.Base.{
  ℕ, zero, suc, ◌<◌, ◌-◌, ◌+◌, ◌^◌, ◌%◌, ◌≡◌, refl, ap, ◌∙◌, [], ◌∷◌, ◌++◌, none, some, Bool, true,
  false, arith, leb, length, get_elem?, replicate, length-append, length-replicate,
}
use native.Mathlib.Nat.{mod-eq_of_lt}
use flowkernel.Hash.{Bytes}
use flowkernel.Mpsc.{Queue}
use flowkernel.Mpsc.Fifo.{Fifo}
use flowkernel.Mpsc.Represents.{Represents}
use flowkernel.Mpsc.Refine.{new_queue-Represents, no_items}
use flowkernel.Platform.{Platform}
use flowkernel.Reactor.{critical, normal, background, Reactor, new_reactor, register_handler}
use flowkernel.Reactor.Handlers.{IsIndexed, new_reactor-IsIndexed, register_handler-IsIndexed}

-- A buffer is valid from 4 bytes on, an eventfd is whether it was written since the last read, and
-- latencies are whole numbers.
abbrev pub linux : Platform
linux = record {
  verify = λ raw. leb 4 (length raw);
  EventFd = Bool;
  fd_new = false;
  fd_write = λ e. true;
  fd_read = λ e. false;
  readable = λ e. e;
  readable-fd_write = λ e. refl;
  readable-fd_read = λ e. refl;
  Micros = ℕ;
  micros_between = λ later earlier. later - earlier;
}

abbrev pub estop_path : Bytes
estop_path = b'e' ∷ b's' ∷ []

abbrev pub pose_path : Bytes
pose_path = b'p' ∷ []

abbrev pub video_path : Bytes
video_path = b'v' ∷ []

abbrev pub small_frame : Bytes
small_frame = 1 ∷ 2 ∷ 3 ∷ 4 ∷ []

-- The three handlers of the tests, one of each priority.
abbrev pub robot : Reactor linux
robot =
    register_handler
      (register_handler (register_handler (new_reactor linux) estop_path critical) pose_path normal)
      video_path background

pub robot-IsIndexed : IsIndexed robot.handlers robot.handler_index
robot-IsIndexed =
    let r0 = new_reactor linux in
    let r1 = register_handler r0 estop_path critical in
    let r2 = register_handler r1 pose_path normal in
    register_handler-IsIndexed r2 video_path background (
      register_handler-IsIndexed r1 pose_path normal
        (register_handler-IsIndexed r0 estop_path critical (new_reactor-IsIndexed linux)))

pub robot-Represents : Represents 9 robot.critical_queue no_items
unfolding register_handler new_reactor
robot-Represents = new_queue-Represents 9 (omega arith)

-- A queue of the reactor's capacity with frames in all slots but the last.
abbrev pub full_queue : {A : Type 0} → A → Queue A
full_queue a = record {
  buffer = replicate 511 (some a) ++ none ∷ [];
  head = 0;
  tail = 511;
  dropped = 0;
}

abbrev pub full_items : {A : Type 0} → A → Fifo A
full_items a = record { items = replicate 511 a; lost = 0 }

full_cells :
    {A : Type 0} (a : A) (n i : ℕ)
    → i < n + 1
    → get_elem? (replicate n (some a) ++ none ∷ []) i ≡ some (get_elem? (replicate n a) i)
full_cells a zero zero h = refl
full_cells a zero (suc i) h = absurd (omega arith)
full_cells a (suc n) zero h = refl
full_cells a (suc n) (suc i) h = full_cells a n i (omega arith)

pub full_queue-Represents : {A : Type 0} (a : A) → Represents 9 (full_queue a) (full_items a)
full_queue-Represents {A} a = record {
  word = omega arith;
  size =
      length-append (replicate 511 (some a)) (none ∷ [])
      ∙ ap (λ (t : ℕ). t + 1) (length-replicate 511 (some a));
  head_in = omega arith;
  tail_at = omega (arith, length-replicate 511 a);
  room = omega (arith, length-replicate 511 a);
  lost = refl;
  cells = λ i h.
      ap (get_elem? (replicate 511 (some a) ++ none ∷ []))
        (ap (λ (t : ℕ). t % 2 ^ 9) {x = 0 + i} (omega arith) ∙ mod-eq_of_lt h)
      ∙ full_cells a 511 i h;
}
