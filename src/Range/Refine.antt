-- ===== src/Range/Refine.antt =====
-- Loop 4 of `CalculateFrameStats_HIST`: the range that it gives for two bins.
use pre.Range.{refine}
use pre.Prelude.Counting.{count_if, count_mono, All-map, All-zip, below, from, in_bin}
use pre.Prelude.{
  ltb, leb, ◌==◌, if◌then◌else◌, Bool-cases, All, ℕ, ◌+◌, ◌-◌, ◌*◌, ◌/◌, ◌≤◌, ◌<◌, min, max, ◌≡◌,
  refl, ◌⊎◌, inl, inr, Bool, true, not, ◌&&◌, List, [], ◌∷◌, arith,
}

count_witness :
    (p : ℕ → Bool) (P : ℕ → Type 0) (xs : List ℕ)
    → 0 < count_if p xs
    → All P xs
    → (v : ℕ) × (p v ≡ true) × P v
unfolding count_if
count_witness p P [] h all = absurd (omega arith)
count_witness p P (x ∷ xs) h (px, all) = elim (Bool-cases (p x)) [
  | inl e ↦ (x, e, px)
  | inr e ↦ count_witness p P xs (ground (arith, h, e)) all
]

-- Loop 4 ends with a value of the interval or as it started, and with no value of the interval past
-- it.
refine-min :
    (lo hi : ℕ) (values : List ℕ) (a b : ℕ)
    → let r = (refine lo hi values a b).0 in
      (r ≤ a)
      × ((r ≡ a) ⊎ ((lo ≤ r) × (r ≤ lo + 256)))
      × All (λ v. lo ≤ v → v ≤ lo + 256 → r ≤ v) values
unfolding refine
refine-min lo hi [] a b = (omega arith, inl refl, tt)
refine-min lo hi (v ∷ values) a b =
    let a' = if leb lo v && leb v (lo + 256) then min a v else a in
    let b' = if leb (hi - 256) v && leb v hi then max b v else b in
    let (le, or, all) = refine-min lo hi values a' b' in
    (ground (arith, le), ground (arith, le, or), (λ h k. ground (arith, le, h, k), all))

refine-max :
    (lo hi : ℕ) (values : List ℕ) (a b : ℕ)
    → let r = (refine lo hi values a b).1 in
      (b ≤ r)
      × ((r ≡ b) ⊎ ((hi - 256 ≤ r) × (r ≤ hi)))
      × All (λ v. hi - 256 ≤ v → v ≤ hi → v ≤ r) values
unfolding refine
refine-max lo hi [] a b = (omega arith, inl refl, tt)
refine-max lo hi (v ∷ values) a b =
    let a' = if leb lo v && leb v (lo + 256) then min a v else a in
    let b' = if leb (hi - 256) v && leb v hi then max b v else b in
    let (le, or, all) = refine-max lo hi values a' b' in
    (ground (arith, le), ground (arith, le, or), (λ h k. ground (arith, le, h, k), all))

-- The two results, from what loop 4 leaves.
final_min :
    (lo hi : ℕ) (values : List ℕ)
    → let r = (refine lo hi values 65535 0).0 in
      let mn = if not (r == 65535) then r else lo in
      (lo ≤ mn) × (mn ≤ lo + 256) × All (λ v. lo ≤ v → v ≤ lo + 256 → mn ≤ v) values
final_min lo hi values =
    let (le, or, all) = refine-min lo hi values 65535 0 in
    let r = (refine lo hi values 65535 0).0 in
    elim (Bool-cases (r == 65535)) [
      | inl e ↦ (
        ground (arith, e),
        ground (arith, e),
        All-map (λ v. lo ≤ v → v ≤ lo + 256 → r ≤ v) _ values (λ v f h k. ground (arith, e, h)) all,
      )
      | inr e ↦ (
        ground (arith, e, or),
        ground (arith, e, or),
        All-map (λ v. lo ≤ v → v ≤ lo + 256 → r ≤ v) _ values (λ v f h k. ground (arith, e, f h k))
            all,
      )
    ]

final_max :
    (lo hi : ℕ) (values : List ℕ)
    → let r = (refine lo hi values 65535 0).1 in
      let mx = if not (r == 0) then r else hi in
      (hi - 256 ≤ mx) × (mx ≤ hi) × All (λ v. hi - 256 ≤ v → v ≤ hi → v ≤ mx) values
final_max lo hi values =
    let (le, or, all) = refine-max lo hi values 65535 0 in
    let r = (refine lo hi values 65535 0).1 in
    elim (Bool-cases (r == 0)) [
      | inl e ↦ (
        ground (arith, e),
        ground (arith, e),
        All-map (λ v. hi - 256 ≤ v → v ≤ hi → v ≤ r) _ values (λ v f h k. ground (arith, e, k)) all,
      )
      | inr e ↦ (
        ground (arith, e, or),
        ground (arith, e, or),
        All-map (λ v. hi - 256 ≤ v → v ≤ hi → v ≤ r) _ values (λ v f h k. ground (arith, e, f h k))
            all,
      )
    ]

-- The range that loop 4 gives for two bins.
abbrev pub of_bins : List ℕ → ℕ → ℕ → ℕ × ℕ
of_bins values b m =
    let lo = b * 256 in
    let hi = (m + 1) * 256 - 1 in
    let r = refine lo hi values 65535 0 in
    (if not (r.0 == 65535) then r.0 else lo, if not (r.1 == 0) then r.1 else hi)

abbrev pub IsRange : List ℕ → ℕ → ℕ → ℕ × ℕ → Type 0
IsRange values target goal r =
    (r.0 ≤ r.1) × (r.1 < 65536) × (below r.0 values ≤ target) × (from (r.1 + 1) values < goal)

past_min :
    (v mn lo : ℕ)
    → (lo ≤ v → v ≤ lo + 256 → mn ≤ v)
    → mn ≤ lo + 256
    → ltb v mn ≡ true
    → ltb v lo ≡ true
past_min v mn lo f h t = ground (arith, f, h, t)

past_max :
    (v mx m : ℕ)
    → ((m + 1) * 256 - 1 - 256 ≤ v → v ≤ (m + 1) * 256 - 1 → v ≤ mx)
    → (m + 1) * 256 - 1 - 256 ≤ mx
    → leb (mx + 1) v ≡ true
    → leb ((m + 1) * 256) v ≡ true
past_max v mx m f h t = ground (arith, f, h, t)

pub of_bins-IsRange :
    (values : List ℕ) (target goal b m : ℕ)
    → b ≤ m
    → m < 256
    → below (b * 256) values ≤ target
    → from ((m + 1) * 256) values < goal
    → 0 < in_bin m values
    → IsRange values target goal (of_bins values b m)
of_bins-IsRange values target goal b m le lt few after some_in =
    let lo = b * 256 in
    let hi = (m + 1) * 256 - 1 in
    let mn = (of_bins values b m).0 in
    let mx = (of_bins values b m).1 in
    let (min_lo, min_hi, min_all) = final_min lo hi values in
    let (max_lo, max_hi, max_all) = final_max lo hi values in
    let (v, in_m, (v_min, v_max)) =
      count_witness (λ v. v / 256 == m)
        (λ v. (lo ≤ v → v ≤ lo + 256 → mn ≤ v) × (hi - 256 ≤ v → v ≤ hi → v ≤ mx)) values some_in
        (All-zip (λ v. lo ≤ v → v ≤ lo + 256 → mn ≤ v) (λ v. hi - 256 ≤ v → v ≤ hi → v ≤ mx) values
          min_all max_all) in
    let v_eq : v / 256 ≡ m = ground (arith, in_m) in
    let v_le : v ≤ mx = v_max (omega (arith, v_eq)) (omega (arith, v_eq)) in
    let fewer =
      count_mono (λ v. ltb v mn) (λ v. ltb v lo) values
        (All-map (λ v. lo ≤ v → v ≤ lo + 256 → mn ≤ v) (λ v. ltb v mn ≡ true → ltb v lo ≡ true)
          values (λ v f. past_min v mn lo f min_hi) min_all) in
    let fewer_after =
      count_mono (λ v. leb (mx + 1) v) (λ v. leb ((m + 1) * 256) v) values
        (All-map (λ v. hi - 256 ≤ v → v ≤ hi → v ≤ mx)
          (λ v. leb (mx + 1) v ≡ true → leb ((m + 1) * 256) v ≡ true) values
          (λ v f. past_max v mx m f max_lo) max_all) in
    (
      elim (Bool-cases (b == m)) [
        | inl e ↦ ground (arith, e, v_min (ground (arith, e, v_eq)) (ground (arith, e, v_eq)), v_le)
        | inr e ↦ ground (arith, e, min_hi, v_le, v_eq, le)
      ],
      omega (arith, max_hi, lt),
      omega (arith, fewer, few),
      omega (arith, fewer_after, after),
    )
