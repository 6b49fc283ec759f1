-- ===== src/Gas/Tests.antt =====
-- The theorems on the gas difference at concrete inputs.
use pre.Gas.{
  checksum_from, checksum, difference, sample_row, sample_rows, sampled, Thresholds,
  process_raw_stats_cv_vague,
}
use pre.Prelude.Counting.{below}
use pre.Gas.Laws.{IsThresholds, between, process_raw_stats_cv_vague_lem}
use pre.Cl.Diff.{DiffCl}
use pre.Cl.Samples.{no_diff_cl}
use pre.Cl.Kernel
use pre.Prelude.{
  ltb, if◌then◌else◌, replicate, ℕ, ◌-◌, ◌≤◌, ◌<◌, ◌≡◌, refl, true, some, List, [], ◌∷◌, suc, map,
  arith,
}

abbrev replies : Kernel.Replies ℕ
replies = record {
  write_ok = true;
  args_ok = true;
  kernel_ok = true;
  read_ok = true;
  result = 9 ∷ 8 ∷ 7 ∷ 6 ∷ 5 ∷ 1 ∷ 2 ∷ 3 ∷ 4 ∷ 0 ∷ [];
}

abbrev ready : DiffCl
ready = record no_diff_cl { initialized = true }

abbrev first_idx : ℕ → ℕ
first_idx n = 0

abbrev last_idx : ℕ → ℕ
last_idx n = n - 1

abbrev cv : Thresholds
cv = record { to_zero = λ v t. if ltb t v then v else 0; trunc = λ v t. if ltb t v then t else v }

cv-IsThresholds : IsThresholds cv
cv-IsThresholds = record { zero_at = λ v t. refl; trunc_at = λ v t. refl }

wraps : checksum (65535 ∷ 2 ∷ 0 ∷ 0 ∷ 0 ∷ 0 ∷ 0 ∷ 0 ∷ 0 ∷ 0 ∷ []) ≡ some 1
unfolding checksum checksum_from
wraps = refl

every_fourth : sampled (9 ∷ 8 ∷ 7 ∷ 6 ∷ 5 ∷ 1 ∷ 2 ∷ 3 ∷ 4 ∷ 0 ∷ []) 5 2 ≡ some (9 ∷ 5 ∷ [])
unfolding sampled sample_rows sample_row
every_fourth = refl

process_raw_stats_cv_vague_lem_example :
    let (temp_diff, kept') = difference replies ready [] (replicate 10 0) [] in
    (samples : List ℕ) × (lo : ℕ) × (hi : ℕ) × (sampled temp_diff 5 2 ≡ some samples)
    × (lo ≤ hi)
    × (below lo samples ≤ first_idx 2)
    × (first_idx 2 < below (suc lo) samples)
    × (below hi samples ≤ last_idx 2)
    × (last_idx 2 < below (suc hi) samples)
    × (process_raw_stats_cv_vague cv first_idx last_idx replies ready [] [] 5 2
        ≡ some (true, map (between lo hi) temp_diff, kept'))
process_raw_stats_cv_vague_lem_example =
    process_raw_stats_cv_vague_lem cv first_idx last_idx replies ready [] [] 5 2 cv-IsThresholds
      refl (omega arith) (omega arith)
