-- ===== src/Reactor/Percentiles.antt =====
-- The percentiles that the statistics report.
use flowkernel.Base.{
  ℕ, suc, ◌^◌, ◌≤◌, ◌<◌, ◌≡◌, List, ◌∷◌, some, arith, sub64, min, length, get_elem?_of_lt,
}
use flowkernel.Reactor.Stats.{Floats, percentile, channel_stats}

module _ {L : Type 0} (fl : Floats L) where
  -- The place that is read, in a window of at least one sample that a 64-bit size can count.
  index_in : (n idx : ℕ) → 0 < n → n < 2 ^ 64 → min idx (sub64 n 1) < n
  index_in n idx h h' = omega arith

  -- For a window with a sample, both percentiles are read within the sorted window, and the 95th is
  -- no greater than the 99th.
  pub percentiles_ordered :
      (processed dropped : ℕ) (x : L) (xs : List L)
      → suc (length xs) < 2 ^ 64
      → let stats = channel_stats fl processed dropped (x ∷ xs) in
        (a : L) × (b : L) × (stats.p95_latency_us ≡ some a)
        × (stats.p99_latency_us ≡ some b)
        × fl.le a b
  unfolding channel_stats percentile
  percentiles_ordered processed dropped x xs h =
      let sorted = fl.sort (x ∷ xs) in
      let size : length sorted ≡ suc (length xs) = fl.length-sort (x ∷ xs) in
      let i = min (fl.share95 (length sorted)) (sub64 (length sorted) 1) in
      let j = min (fl.share99 (length sorted)) (sub64 (length sorted) 1) in
      let (a, at_i) = get_elem?_of_lt sorted i (omega (arith, size)) in
      let (b, at_j) = get_elem?_of_lt sorted j (omega (arith, size)) in
      let before : i ≤ j = omega (arith, fl.share_mono (length sorted)) in
      (a, b, at_i, at_j, fl.sort_ordered (x ∷ xs) i j a b before at_i at_j)
