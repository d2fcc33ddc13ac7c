-- ===== src/Reactor/ResetWithin.antt =====
-- A reset of the statistics within the synchronisation of the queue's drops in `handle_events` of
-- src/reactor.cpp, at each place of the block.
use flowkernel.Base.{ℕ, ◌-◌, ◌≡◌, ◌∷◌, ◌++◌, replicate}
use flowkernel.Platform.{Platform}
use flowkernel.Reactor.{Counters, Reactor}
use flowkernel.Reactor.ResetRace.{begun, advances, clears, syncing}

-- Nothing is reported as dropped but `drops` under CRITICAL, and the mark is at `seen`.
abbrev pub ReportsDropped : ℕ → ℕ → Counters → Type 0
ReportsDropped seen drops c =
    (c.critical_dropped ≡ drops) × (c.normal_dropped ≡ 0) × (c.last_queue_dropped ≡ seen)

module _ {p : Platform} where
  -- The counters after the block, with a reset before its statement `n`, counted from 0.
  abbrev pub reset_before : ℕ → Reactor p → Counters
  reset_before n r =
      (syncing (replicate n advances ++ clears ∷ replicate (4 - n) advances)
        (record { reactor = r; phase = begun })).reactor.counters
