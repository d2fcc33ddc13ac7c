-- ===== src/Reactor/Accounting.antt =====
-- Drops: what the queue and the cache count, and what the reactor reports of it.
use native.Mathlib.Nat.{div-le_self}
use flowkernel.Base.{
  ℕ, ◌/◌, ◌^◌, ◌<◌, ◌≡◌, refl, arith, add64, sub64, mul64, ltb, Bool-cases, inl, inr,
}
use flowkernel.Reactor.{Counters}
use flowkernel.Reactor.Events.{share_dropped, sync_dropped, count_cycle, count_background}

-- The counters hold 64-bit values.
pub record IsWide (c : Counters) : Type 0 where
  pub critical_wide : c.critical_dropped < 2 ^ 64
  pub normal_wide : c.normal_dropped < 2 ^ 64
  pub background_wide : c.background_dropped < 2 ^ 64
  pub queue_wide : c.last_queue_dropped < 2 ^ 64
  pub bg_wide : c.last_bg_dropped < 2 ^ 64

-- The drops reported since both sources stood at `queue_base` and `bg_base` are all that the
-- sources have counted since, up to the last look at them.
pub record IsAccounted (queue_base bg_base : ℕ) (c : Counters) : Type 0 where
  pub wide : IsWide c
  pub queue_side :
      add64 (add64 c.critical_dropped c.normal_dropped) queue_base ≡ c.last_queue_dropped
  pub bg_side : add64 c.background_dropped bg_base ≡ c.last_bg_dropped

shares_sum :
    (a b n d : ℕ) → d < 2 ^ 64 → add64 (add64 a d) (add64 b (sub64 n d)) ≡ add64 (add64 a b) n
shares_sum a b n d h = omega arith

share_lt : (n c total : ℕ) → mul64 n c / total < 2 ^ 64
share_lt n c total = omega (arith, div-le_self (mul64 n c) total)

-- Whatever the shares are, together they are the new drops.
share_dropped_total :
    (new_dropped : ℕ) (c : Counters)
    → let c' = share_dropped new_dropped c in
      add64 c'.critical_dropped c'.normal_dropped
      ≡ add64 (add64 c.critical_dropped c.normal_dropped) new_dropped
unfolding share_dropped
share_dropped_total new_dropped c =
    let total = add64 c.critical_count_last c.normal_count_last in
    elim (Bool-cases (ltb 0 total)) [
      | inl some_frames ↦ rw some_frames (
          shares_sum c.critical_dropped c.normal_dropped new_dropped
            (mul64 new_dropped c.critical_count_last / total)
            (share_lt new_dropped c.critical_count_last total))
      | inr no_frames ↦ rw no_frames (omega arith)
    ]

-- What sharing leaves alone, and that the counters stay 64-bit values.
record Keeps (c c' : Counters) : Type 0 where
  critical_wide : c'.critical_dropped < 2 ^ 64
  normal_wide : c'.normal_dropped < 2 ^ 64
  background : c'.background_dropped ≡ c.background_dropped
  queue_mark : c'.last_queue_dropped ≡ c.last_queue_dropped
  bg_mark : c'.last_bg_dropped ≡ c.last_bg_dropped

share_dropped-Keeps :
    (new_dropped : ℕ) (c : Counters) → IsWide c → Keeps c (share_dropped new_dropped c)
unfolding share_dropped
share_dropped-Keeps new_dropped c w =
    let total = add64 c.critical_count_last c.normal_count_last in
    elim (Bool-cases (ltb 0 total)) [
      | inl some_frames ↦ rw some_frames (record {
        critical_wide = omega arith;
        normal_wide = omega arith;
        background = refl;
        queue_mark = refl;
        bg_mark = refl;
      })
      | inr no_frames ↦ rw no_frames (record {
        critical_wide = omega arith;
        normal_wide = w.normal_wide;
        background = refl;
        queue_mark = refl;
        bg_mark = refl;
      })
    ]

-- At the start of a cycle the reported drops catch up with the queue.
pub sync_dropped-IsAccounted :
    (current queue_base bg_base : ℕ) (c : Counters)
    → current < 2 ^ 64
    → IsAccounted queue_base bg_base c
    → IsAccounted queue_base bg_base (sync_dropped current c)
      × ((sync_dropped current c).last_queue_dropped ≡ current)
unfolding sync_dropped
sync_dropped-IsAccounted current queue_base bg_base c fits a =
    let new_dropped = sub64 current c.last_queue_dropped in
    let c' : Counters = record c { last_queue_dropped = current } in
    let w : IsWide c' = record {
      critical_wide = a.wide.critical_wide;
      normal_wide = a.wide.normal_wide;
      background_wide = a.wide.background_wide;
      queue_wide = fits;
      bg_wide = a.wide.bg_wide;
    } in
    let keeps = share_dropped-Keeps new_dropped c' w in
    elim (Bool-cases (ltb 0 new_dropped)) [
      | inl more ↦ rw more (
        record {
          wide = record {
            critical_wide = keeps.critical_wide;
            normal_wide = keeps.normal_wide;
            background_wide = omega (arith, keeps.background);
            queue_wide = omega (arith, keeps.queue_mark);
            bg_wide = omega (arith, keeps.bg_mark);
          };
          queue_side = omega (
            arith,
            share_dropped_total new_dropped c',
            keeps.queue_mark,
            a.queue_side,
            a.wide.queue_wide,
          );
          bg_side = omega (arith, keeps.background, keeps.bg_mark, a.bg_side);
        },
        keeps.queue_mark,
      )
      | inr same ↦
          rw same
            (record { wide = w; queue_side = ground (arith, same); bg_side = a.bg_side }, refl)
    ]

-- The counts of the cycle leave the drops alone.
pub count_cycle-IsAccounted :
    (critical_count normal_count queue_base bg_base : ℕ) (c : Counters)
    → IsAccounted queue_base bg_base c
    → IsAccounted queue_base bg_base (count_cycle critical_count normal_count c)
unfolding count_cycle
count_cycle-IsAccounted critical_count normal_count queue_base bg_base c a = record {
  wide = record {
    critical_wide = a.wide.critical_wide;
    normal_wide = a.wide.normal_wide;
    background_wide = a.wide.background_wide;
    queue_wide = a.wide.queue_wide;
    bg_wide = a.wide.bg_wide;
  };
  queue_side = a.queue_side;
  bg_side = a.bg_side;
}

-- At the end of a cycle the reported drops of the slots catch up with the cache.
pub count_background-IsAccounted :
    (background_count current queue_base bg_base : ℕ) (c : Counters)
    → current < 2 ^ 64
    → IsAccounted queue_base bg_base c
    → IsAccounted queue_base bg_base (count_background background_count current c)
unfolding count_background
count_background-IsAccounted background_count current queue_base bg_base c fits a = record {
  wide = record {
    critical_wide = a.wide.critical_wide;
    normal_wide = a.wide.normal_wide;
    background_wide = omega arith;
    queue_wide = a.wide.queue_wide;
    bg_wide = fits;
  };
  queue_side = a.queue_side;
  bg_side = omega (arith, a.bg_side, a.wide.bg_wide);
}
