-- ===== src/Reactor/OneLook.antt =====
-- The first block of `handle_events` of src/reactor.cpp one access at a time, while samples arrive
-- between the accesses: it is the single step of Reactor/Live.antt.
use flowkernel.Base.{
  ℕ, ◌≡◌, refl, sym, ap, ap₂, ◌∙◌, List, [], ◌∷◌, ◌++◌, true, if◌then◌else◌, sub64, ltb,
}
use flowkernel.Mpsc.{dropped_count}
use flowkernel.Platform.{Platform}
use flowkernel.Reactor.{Counters, Reactor}
use flowkernel.Reactor.Callback.{data_callback}
use flowkernel.Reactor.Events.{share_dropped, sync_dropped}
use flowkernel.Reactor.Live.{
  Live, LiveTurn, arrives, proceeds, resets_all, begin_cycle, proceed, live_turn, live,
}
use flowkernel.Reactor.Alone.{at_rest}
use flowkernel.Reactor.CounterFree.{with_counters, data_callback-with_counters}
use flowkernel.Reactor.ResetRace.{
  begun, looked, compared, marked, shared, Syncing, SyncTurn, advances, comes, clears, OnlyArrivals,
  syncing, sync_turn, advance,
}

-- What else happens during the block, as turns of Reactor/Live.antt.
abbrev pub others : List SyncTurn → List LiveTurn
others [] = []
others (advances ∷ turns) = others turns
others (comes ctx key raw now_ms now ∷ turns) = arrives ctx key raw now_ms now ∷ others turns
others (clears ∷ turns) = resets_all ∷ others turns

-- The block with samples between its accesses.
abbrev pub interrupted : (first second third : List SyncTurn) → List SyncTurn
interrupted first second third =
    advances ∷ (first ++ (advances ∷ (second ++ (advances ∷ (third ++ (advances ∷ []))))))

OnlyArrivals-append :
    (turns more : List SyncTurn)
    → OnlyArrivals turns
    → OnlyArrivals more
    → OnlyArrivals (turns ++ more)
OnlyArrivals-append [] more h h' = h'
OnlyArrivals-append (comes ctx key raw now_ms now ∷ turns) more h h' =
    OnlyArrivals-append turns more h h'
OnlyArrivals-append (advances ∷ turns) more h h' = elim h [ ]
OnlyArrivals-append (clears ∷ turns) more h h' = elim h [ ]

abbrev mark : ℕ → Counters → Counters
mark current c = record c { last_queue_dropped = current }

module _ {p : Platform} where
  abbrev arrive_all : List SyncTurn → Reactor p → Reactor p
  arrive_all [] r = r
  arrive_all (comes ctx key raw now_ms now ∷ turns) r =
      arrive_all turns (data_callback ctx key raw now_ms now r)
  arrive_all (_ ∷ turns) r = arrive_all turns r

  arrive_all-with_counters :
      (c : Counters) (turns : List SyncTurn) (r : Reactor p)
      → arrive_all turns (with_counters c r) ≡ with_counters c (arrive_all turns r)
  arrive_all-with_counters c [] r = refl
  arrive_all-with_counters c (comes ctx key raw now_ms now ∷ turns) r =
      ap (arrive_all turns) (data_callback-with_counters c ctx key raw now_ms now r)
      ∙ arrive_all-with_counters c turns (data_callback ctx key raw now_ms now r)
  arrive_all-with_counters c (advances ∷ turns) r = arrive_all-with_counters c turns r
  arrive_all-with_counters c (clears ∷ turns) r = arrive_all-with_counters c turns r

  arrive_all-append :
      (turns more : List SyncTurn) (r : Reactor p)
      → arrive_all (turns ++ more) r ≡ arrive_all more (arrive_all turns r)
  arrive_all-append [] more r = refl
  arrive_all-append (comes ctx key raw now_ms now ∷ turns) more r =
      arrive_all-append turns more (data_callback ctx key raw now_ms now r)
  arrive_all-append (advances ∷ turns) more r = arrive_all-append turns more r
  arrive_all-append (clears ∷ turns) more r = arrive_all-append turns more r

  -- Samples arrive, and then the rest happens.
  syncing-arrivals :
      (turns more : List SyncTurn) (s : Syncing p)
      → OnlyArrivals turns
      → syncing (turns ++ more) s ≡ syncing more (record s { reactor = arrive_all turns s.reactor })
  unfolding syncing sync_turn
  syncing-arrivals [] more s h = refl
  syncing-arrivals (comes ctx key raw now_ms now ∷ turns) more s h =
      syncing-arrivals turns more (sync_turn (comes ctx key raw now_ms now) s) h
  syncing-arrivals (advances ∷ turns) more s h = elim h [ ]
  syncing-arrivals (clears ∷ turns) more s h = elim h [ ]

  live-others :
      (turns : List SyncTurn) (m : Live p)
      → OnlyArrivals turns
      → (live (others turns) m).reactor ≡ arrive_all turns m.reactor
  unfolding live live_turn
  live-others [] m h = refl
  live-others (comes ctx key raw now_ms now ∷ turns) m h =
      live-others turns (live_turn (arrives ctx key raw now_ms now) m) h
  live-others (advances ∷ turns) m h = elim h [ ]
  live-others (clears ∷ turns) m h = elim h [ ]

  counters-arrive_all :
      (turns : List SyncTurn) (r : Reactor p) → (arrive_all turns r).counters ≡ r.counters
  counters-arrive_all turns r =
      ap (λ (x : Reactor p). x.counters) (arrive_all-with_counters r.counters turns r)

  abbrev finish : ℕ → Reactor p → Reactor p
  finish new_dropped r =
      with_counters (if ltb 0 new_dropped then share_dropped new_dropped r.counters else r.counters)
        r

  -- The accesses one after another.
  syncing-interrupted :
      (r : Reactor p) (first second third : List SyncTurn)
      → OnlyArrivals first
      → OnlyArrivals second
      → OnlyArrivals third
      → let current = dropped_count r.critical_queue in
        let r1 = arrive_all first r in
        let r2 = arrive_all second r1 in
        syncing (interrupted first second third) (record { reactor = r; phase = begun }) ≡ record {
          reactor =
              finish
                (sub64 current r1.counters.last_queue_dropped)
                (arrive_all third (with_counters (mark current r2.counters) r2));
          phase = shared;
        }
  unfolding syncing sync_turn advance
  syncing-interrupted r first second third h h' h'' =
      let current = dropped_count r.critical_queue in
      let r1 = arrive_all first r in
      let r2 = arrive_all second r1 in
      let new_dropped = sub64 current r1.counters.last_queue_dropped in
      let last = advances ∷ [] in
      let later = advances ∷ (third ++ last) in
      syncing-arrivals first (advances ∷ (second ++ later))
        (record { reactor = r; phase = looked current }) h
      ∙ syncing-arrivals second later
          (record { reactor = r1; phase = compared current new_dropped }) h'
      ∙ syncing-arrivals third last
          (record {
            reactor = with_counters (mark current r2.counters) r2;
            phase = marked new_dropped;
          })
          h''

  -- A running reactor's look at the queue's drops, one access at a time, with any samples that arrive
  -- between the accesses: it ends, and the reactor is as if all the accesses had been one step before
  -- these samples.
  pub one_look :
      (clock : ℕ → ℕ) (r : Reactor p) (first second third : List SyncTurn)
      → r.running ≡ true
      → OnlyArrivals first
      → OnlyArrivals second
      → OnlyArrivals third
      → let s = syncing (interrupted first second third) (record { reactor = r; phase = begun }) in
        (s.phase ≡ shared)
        × (s.reactor
            ≡ (live (proceeds clock ∷ others (first ++ (second ++ third))) (at_rest r)).reactor)
  unfolding live live_turn proceed begin_cycle sync_dropped
  one_look clock r first second third on h h' h'' =
      let current = dropped_count r.critical_queue in
      let r1 = arrive_all first r in
      let r2 = arrive_all second r1 in
      let r3 = arrive_all third r2 in
      let all = first ++ (second ++ third) in
      let k1 = counters-arrive_all first r in
      let k2 = counters-arrive_all second r1 ∙ k1 in
      let arrived =
        arrive_all-append first (second ++ third) r ∙ arrive_all-append second third r1 in
      let synced = sync_dropped current r.counters in
      let steps = syncing-interrupted r first second third h h' h'' in
      let marked_then =
        arrive_all-with_counters (mark current r2.counters) third r2
        ∙ ap (λ (c : Counters). with_counters (mark current c) r3) k2 in
      let started = ap (λ b. if b then begin_cycle (at_rest r) else at_rest r) on in
      let only =
        OnlyArrivals-append first (second ++ third) h (OnlyArrivals-append second third h' h'') in
      (
        ap (λ (s : Syncing p). s.phase) steps,
        ap (λ (s : Syncing p). s.reactor) steps
            ∙ ap₂ finish (ap (λ (c : Counters). sub64 current c.last_queue_dropped) k1) marked_then
            ∙ ap (with_counters synced) (sym arrived)
            ∙ sym (arrive_all-with_counters synced all r)
            ∙ sym (live-others all (begin_cycle (at_rest r)) only)
            ∙ ap (λ m. (live (others all) m).reactor) (sym started),
      )
