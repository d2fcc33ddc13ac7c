-- ===== src/Reactor/Unreset.antt =====
-- The drops that the reactor reports while samples come and stops fall into its cycles.
use flowkernel.Base.{ℕ, subst, List}
use flowkernel.Platform.{Platform}
use flowkernel.Reactor.Sound.{IsSound}
use flowkernel.Reactor.Drops.{live-IsSound}
use flowkernel.Reactor.Reported.{bases-NoResets}
use flowkernel.Reactor.Totals.{NoResets}
use flowkernel.Reactor.Live.{Live, LiveTurn, live}

module _ {p : Platform} where
  -- From a sound state, whatever samples arrive, however far the thread of the event loop goes, and
  -- whoever stops the reactor, in the middle of a cycle too, as long as nobody resets the
  -- statistics: the reactor stays sound with the same bases. The ring stays in order, the index
  -- right, and the reported drops of CRITICAL and NORMAL together, and those of BACKGROUND, are,
  -- modulo 2 ^ 64, what the queue and the cache had counted at the last look at them beyond what
  -- they had counted at the bases.
  pub unreset-IsSound :
      (turns : List LiveTurn) (m : Live p) (queue_base bg_base : ℕ)
      → NoResets turns
      → IsSound queue_base bg_base m.reactor
      → IsSound queue_base bg_base (live turns m).reactor
  unreset-IsSound turns m queue_base bg_base h s =
      subst (λ b. IsSound b.0 b.1 (live turns m).reactor)
        (bases-NoResets turns m (queue_base, bg_base) h)
        (live-IsSound turns m (queue_base, bg_base) s)
