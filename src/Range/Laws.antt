-- ===== src/Range/Laws.antt =====
-- What `CalculateFrameStats_HIST` finds.
use pre.Range.{
  samples, build, find_min, find_max, stats_of, calculate_frame_stats_hist, calculate_frame_stats,
  PseudoAdaptiveMapper, smooth, update_range,
}
use pre.Prelude.Counting.{
  count_if, below, from, in_bin, below-from, below-suc, below_zero, below_mono,
}
use pre.Range.Histogram.{IsU16, build_total, Counts, build-Counts, find_min_lem, find_max_lem}
use pre.Prelude.Floats.{Floats}
use pre.Prelude.{
  leb, leb→le, Bool-cases, ◌>>=◌, length, replicate, All, All-get_elem?, ℕ, zero, suc, ◌+◌, ◌-◌,
  ◌*◌, ◌/◌, ◌≤◌, ◌<◌, ◌≡◌, refl, sym, ap, subst, ◌∙◌, ◌⊎◌, inl, inr, some, List, [], ◌∷◌, arith,
}
use pre.QuickSelect.{quick_select}
use pre.QuickSelect.Laws.{quick_select_lem}
use pre.QuickSelect.Order.{same-below, IsSelected-rank, IsSelected-mono}
use pre.Range.Refine.{of_bins, IsRange, of_bins-IsRange}

from_end : (values : List ℕ) → All IsU16 values → from 65536 values ≡ 0
unfolding count_if
from_end [] u = refl
from_end (v ∷ values) (u, us) = ground (arith, u, from_end values us)

-- The bins where the searches stop.
bins_lem :
    (values histogram : List ℕ) (target goal : ℕ)
    → All IsU16 values
    → Counts histogram values
    → 0 < goal
    → goal ≤ length values
    → target + goal ≤ length values
    → let b = find_min histogram target 256 0 0 in
      let c = find_max histogram goal 256 0 in
      (b ≤ c)
      × (c < 256)
      × (below (b * 256) values ≤ target)
      × (from ((c + 1) * 256) values < goal)
      × (0 < in_bin c values)
bins_lem values histogram target goal u c pos_goal enough apart =
    let (b_lt, b_min) =
      subst
        (λ n.
          let r = find_min histogram target 256 0 n in
          (r < 256) × ((r ≡ 0) ⊎ (below (r * 256) values < target)))
        (below_zero values) (find_min_lem histogram values target 256 0 c refl (inl refl)) in
    let (c_lt, c_after, c_from) =
      subst
        (λ n.
          let r = find_max histogram goal 256 n in
          (r < 256) × (from ((r + 1) * 256) values < goal) × (goal ≤ from (r * 256) values))
        (from_end values u)
        (find_max_lem histogram values goal 256 c (omega arith) pos_goal enough
          (omega (arith, from_end values u))) in
    stop (find_min histogram target 256 0 0) (find_max histogram goal 256 0) b_min c_lt c_after
      c_from
  where
    stop :
        (b m : ℕ)
        → (b ≡ 0) ⊎ (below (b * 256) values < target)
        → m < 256
        → from ((m + 1) * 256) values < goal
        → goal ≤ from (m * 256) values
        → (b ≤ m)
          × (m < 256)
          × (below (b * 256) values ≤ target)
          × (from ((m + 1) * 256) values < goal)
          × (0 < in_bin m values)
    stop b m b_min m_lt after first = (
      ordered b_min,
      m_lt,
      few b_min,
      after,
      omega (
        arith,
        after,
        first,
        below-from (m * 256) values,
        below-from ((m + 1) * 256) values,
        below-suc m values,
      ),
    )
      where
        few : (b ≡ 0) ⊎ (below (b * 256) values < target) → below (b * 256) values ≤ target
        few (inl e) =
            subst (λ k. below (k * 256) values ≤ target) (sym e) (omega (arith, below_zero values))
        few (inr h) = omega (arith, h)

        ordered : (b ≡ 0) ⊎ (below (b * 256) values < target) → b ≤ m
        ordered (inl e) = omega (arith, e)
        ordered (inr h) = elim (Bool-cases (leb b m)) [
          | inl t ↦ leb→le b m t
          | inr t ↦ absurd (
              omega (
                arith,
                h,
                after,
                below-from ((m + 1) * 256) values,
                below_mono ((m + 1) * 256) (b * 256) values (ground (arith, t)),
              ))
        ]

-- Of at least one value of 16 bits, and where the two targets leave something between them, the range
-- is in order and of 16 bits, at most the first target of the values lie below it, and fewer lie
-- above it than the second target leaves.
pub stats_of_lem :
    (percent_1 percent_99 : ℕ → ℕ) (values : List ℕ)
    → All IsU16 values
    → percent_1 (length values) ≤ percent_99 (length values)
    → percent_99 (length values) < length values
    → let (min_val, max_val) = stats_of percent_1 percent_99 values in
      (min_val ≤ max_val)
      × (max_val < 65536)
      × (below min_val values ≤ percent_1 (length values))
      × (from (max_val + 1) values < length values - percent_99 (length values))
unfolding stats_of
stats_of_lem percent_1 percent_99 values u ordered inside =
    let (histogram, n) = build values (replicate 256 0) 0 in
    let total : n ≡ length values = omega (arith, build_total values (replicate 256 0) 0) in
    let (le, lt, few, after, some_in) =
      bins_lem values histogram (percent_1 (length values))
        (length values - percent_99 (length values)) u (build-Counts values u) (omega arith)
        (omega arith) (omega arith) in
    subst
      (λ k.
        IsRange values (percent_1 (length values)) (length values - percent_99 (length values)) (
          of_bins values (find_min histogram (percent_1 k) 256 0 0)
            (find_max histogram (k - percent_99 k) 256 0)))
      (sym total)
      (of_bins-IsRange values (percent_1 (length values))
        (length values - percent_99 (length values)) _ _ le lt few after some_in)

-- The loops read every fourth value and stay within the input.
samples_lem :
    (P : ℕ → Type 0) (input : List ℕ) (left i : ℕ)
    → All P input
    → i + left * 4 ≤ length input + 3
    → (values : List ℕ) × (samples input left i ≡ some values)
      × (length values ≡ left)
      × All P values
unfolding samples
samples_lem P input zero i all h = ([], refl, refl, tt)
samples_lem P input (suc left) i all h =
    let (v, e, p) = All-get_elem? P input i all (omega (arith, h)) in
    let (values, e', n, ps) = samples_lem P input left (i + 4) all (omega (arith, h)) in
    (v ∷ values, ground (arith, e, e'), omega (arith, n), (p, ps))

-- Of an image of 16-bit pixels that is not empty and whose pixels are all there, the histogram of every
-- fourth pixel is made without an access out of range, and gives a range in order and of 16 bits: at
-- most the first target of these pixels lie below it, and fewer lie above it than the second
-- target leaves, where the two targets leave something between them.
pub calculate_frame_stats_hist_lem :
    (percent_1 percent_99 : ℕ → ℕ) (input : List ℕ) (size : ℕ)
    → let n = (size + 4 - 1) / 4 in
      All IsU16 input
      → size ≤ length input
      → percent_1 n ≤ percent_99 n
      → percent_99 n < n
      → (values : List ℕ) × (min_val : ℕ) × (max_val : ℕ) × (samples input n 0 ≡ some values)
        × (calculate_frame_stats_hist percent_1 percent_99 input size ≡ some (min_val, max_val))
        × (min_val ≤ max_val)
        × (max_val < 65536)
        × (below min_val values ≤ percent_1 n)
        × (from (max_val + 1) values < n - percent_99 n)
unfolding calculate_frame_stats_hist
calculate_frame_stats_hist_lem percent_1 percent_99 input size u fits ordered inside =
    let n = (size + 4 - 1) / 4 in
    let (values, e, len, us) = samples_lem IsU16 input n 0 u (omega arith) in
    let (a, b, c, d) =
      subst
        (λ k.
          percent_1 k ≤ percent_99 k
          → percent_99 k < k
          → IsRange values (percent_1 k) (k - percent_99 k) (stats_of percent_1 percent_99 values))
        len (stats_of_lem percent_1 percent_99 values us) ordered inside in
    (values, _, _, e, ap (λ o. o >>= λ vs. some (stats_of percent_1 percent_99 vs)) e, a, b, c, d)

-- Of an image with four pixels or more, all of them there, the two selections of every fourth pixel
-- end without an access out of range, in order, each with the rank that its target asks for.
pub calculate_frame_stats_lem :
    (percent_1 percent_99 : ℕ → ℕ) (input : List ℕ) (size : ℕ)
    → let n = size / 4 in
      size ≤ length input
      → percent_1 n ≤ percent_99 n
      → percent_99 n < n
      → (values : List ℕ) × (min_val : ℕ) × (max_val : ℕ) × (samples input n 0 ≡ some values)
        × (calculate_frame_stats percent_1 percent_99 input size ≡ some (min_val, max_val))
        × (min_val ≤ max_val)
        × (below min_val values ≤ percent_1 n)
        × (percent_99 n < below (suc max_val) values)
unfolding calculate_frame_stats
calculate_frame_stats_lem percent_1 percent_99 input size fits ordered inside =
    let n = size / 4 in
    let (values, e, len, us) = samples_lem (λ v. v ≡ v) input n 0 (always input) (omega arith) in
    let k : percent_1 n < length values = omega (arith, len, ordered, inside) in
    let (v, arr', e1, s) = quick_select_lem values (percent_1 n) k in
    let l : percent_99 n < length arr' = omega (arith, len, inside, s.same_length) in
    let (w, brr', e2, t) = quick_select_lem arr' (percent_99 n) l in
    let (few, many) = IsSelected-rank (percent_1 n) v values arr' k s in
    let fuel_first =
      subst (λ f. quick_select f 0 (f - 1) (percent_1 n) values ≡ some (v, arr')) len e1 in
    let fuel_second =
      subst (λ f. quick_select f 0 (f - 1) (percent_99 n) arr' ≡ some (w, brr'))
        (s.same_length ∙ len) e2 in
    let (few', many') = IsSelected-rank (percent_99 n) w arr' brr' l t in
    (
      values,
      v,
      w,
      e,
      ground (arith, e, fuel_first, fuel_second),
      IsSelected-mono (percent_1 n) (percent_99 n) v w values arr' arr' brr' s.items ordered k l s
          t,
      few,
      omega (arith, many', same-below arr' values (suc w) s.items),
    )
  where
    always : (xs : List ℕ) → All (λ v. v ≡ v) xs
    always [] = tt
    always (x ∷ xs) = (refl, always xs)

-- Of an image whose pixels are all there the mapper is updated without an access out of range.
pub update_range_defined :
    (fl : Floats) (alpha : fl.F) (percent_1 percent_99 : ℕ → ℕ) (input : List ℕ) (width height : ℕ)
    (m : PseudoAdaptiveMapper fl)
    → width * height ≤ length input
    → (m' : PseudoAdaptiveMapper fl) × (update_range fl alpha percent_1 percent_99 input width
          height m
        ≡ some m')
unfolding update_range calculate_frame_stats_hist
update_range_defined fl alpha percent_1 percent_99 input width height m fits =
    let (values, e, len, us) =
      samples_lem (λ v. v ≡ v) input ((width * height + 4 - 1) / 4) 0 (each input) (omega arith) in
    (
      _,
      ap
          (λ o.
            o
            >>= (λ vs. some (stats_of percent_1 percent_99 vs))
            >>= (λ r. some (smooth fl alpha r.0 r.1 m)))
          e,
    )
  where
    each : (xs : List ℕ) → All (λ v. v ≡ v) xs
    each [] = tt
    each (x ∷ xs) = (refl, each xs)
