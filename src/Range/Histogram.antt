-- ===== src/Range/Histogram.antt =====
-- The histogram counts the values of each bin, and the searches from its ends stop where they should.
use pre.Range.{build, find_min, find_max}
use pre.Prelude.Counting.{count_if, below, from, in_bin, below-from, below-suc, below_zero}
use pre.Prelude.{
  leb, ◌==◌, if◌then◌else◌, Bool-cases, length, set, length-set, get_or, replicate, get_or-set_self,
  get_or-set_ne, get_or-replicate, All, ℕ, zero, suc, ◌+◌, ◌*◌, ◌/◌, ◌≤◌, ◌<◌, min, ◌≡◌, refl, sym,
  ap, subst, ◌∙◌, ◌≢◌, ◌⊎◌, inl, inr, List, [], ◌∷◌, arith,
}

-- Values of 16 bits.
abbrev pub IsU16 : ℕ → Type 0
IsU16 v = v < 65536

pub build_total :
    (values histogram : List ℕ) (n : ℕ) → (build values histogram n).1 ≡ n + length values
unfolding build
build_total [] histogram n = omega arith
build_total (v ∷ values) histogram n = omega (
  arith,
  build_total values
      (set histogram (min (v / 256) 255) (get_or histogram (min (v / 256) 255) 0 + 1)) (n + 1),
)

pub build-in_bin :
    (values histogram : List ℕ) (n b : ℕ)
    → All IsU16 values
    → length histogram ≡ 256
    → b < 256
    → get_or ((build values histogram n).0) b 0 ≡ get_or histogram b 0 + in_bin b values
unfolding build count_if
build-in_bin [] histogram n b u h lt = omega arith
build-in_bin (v ∷ values) histogram n b (u, us) h lt =
    let bin = min (v / 256) 255 in
    let bin_eq : bin ≡ v / 256 = omega arith in
    let next = set histogram bin (get_or histogram bin 0 + 1) in
    let ih = build-in_bin values next (n + 1) b us (length-set histogram bin _ ∙ h) lt in
    elim (Bool-cases (v / 256 == b)) [
      | inl e ↦
          let same : bin ≡ b = ground (arith, e, bin_eq) in
          ground (
            arith,
            ih,
            e,
            same,
            get_or-set_self histogram bin (get_or histogram bin 0 + 1) 0 (omega (arith, h)),
          )
      | inr e ↦
          let other : bin ≢ b = λ eq. ground (arith, e, eq, bin_eq) in
          ground (arith, ih, e, get_or-set_ne histogram bin b (get_or histogram bin 0 + 1) 0 other)
    ]

-- A histogram that has the count of each bin.
abbrev pub Counts : List ℕ → List ℕ → Type 0
Counts histogram values = (b : ℕ) → b < 256 → get_or histogram b 0 ≡ in_bin b values

pub build-Counts :
    (values : List ℕ) → All IsU16 values → Counts ((build values (replicate 256 0) 0).0) values
build-Counts values u b lt = omega (
  arith,
  build-in_bin values (replicate 256 0) 0 b u refl lt,
  get_or-replicate {A = ℕ} 256 b 0 0 lt,
)

-- Loop 2 finds the first bin up to which there are enough values.
pub find_min_lem :
    (histogram values : List ℕ) (target left i : ℕ)
    → Counts histogram values
    → i + left ≡ 256
    → (i ≡ 0) ⊎ (below (i * 256) values < target)
    → let r = find_min histogram target left i (below (i * 256) values) in
      (r < 256) × ((r ≡ 0) ⊎ (below (r * 256) values < target))
unfolding find_min
find_min_lem histogram values target zero i c e h = (omega arith, inl refl)
find_min_lem histogram values target (suc left) i c e h =
    let step = below-suc i values in
    let in_i = c i (omega arith) in
    let n = below (i * 256) values + get_or histogram i 0 in
    let n_eq : n ≡ below ((i + 1) * 256) values = omega (arith, step, in_i) in
    let rest = find_min histogram target left (i + 1) n in
    elim (Bool-cases (leb target n)) [
      | inl t ↦
          let r_eq : i ≡ (if leb target n then i else rest) = ground (arith, t) in
          subst (λ r. (r < 256) × ((r ≡ 0) ⊎ (below (r * 256) values < target))) r_eq
            (omega arith, h)
      | inr t ↦
          let r_eq : rest ≡ (if leb target n then i else rest) = ground (arith, t) in
          subst (λ r. (r < 256) × ((r ≡ 0) ⊎ (below (r * 256) values < target)))
            (ap (λ k. find_min histogram target left (i + 1) k) (sym n_eq) ∙ r_eq)
            (find_min_lem histogram values target left (i + 1) c (omega (arith, e))
              (inr (ground (arith, t, n_eq))))
    ]

-- Loop 3 finds the last bin from which on there are enough values.
pub find_max_lem :
    (histogram values : List ℕ) (goal i : ℕ)
    → Counts histogram values
    → i ≤ 256
    → 0 < goal
    → goal ≤ length values
    → from (i * 256) values < goal
    → let r = find_max histogram goal i (from (i * 256) values) in
      (r < 256) × (from ((r + 1) * 256) values < goal) × (goal ≤ from (r * 256) values)
unfolding find_max
find_max_lem histogram values goal zero c le pos_goal enough h =
    absurd (omega (arith, below-from 0 values, below_zero values))
find_max_lem histogram values goal (suc i) c le pos_goal enough h =
    let step = below-suc i values in
    let in_i = c i (omega arith) in
    let n = from (suc i * 256) values + get_or histogram i 0 in
    let n_eq : n ≡ from (i * 256) values =
      omega
        (arith, step, in_i, below-from (i * 256) values, below-from (suc i * 256) values, next i) in
    let rest = find_max histogram goal i n in
    elim (Bool-cases (leb goal n)) [
      | inl t ↦
          let r_eq : i ≡ (if leb goal n then i else rest) = ground (arith, t) in
          subst Good r_eq (omega arith, ground (arith, h, next' i), ground (arith, t, n_eq))
      | inr t ↦
          let r_eq : rest ≡ (if leb goal n then i else rest) = ground (arith, t) in
          subst Good (ap (λ k. find_max histogram goal i k) (sym n_eq) ∙ r_eq) (
            find_max_lem histogram values goal i c (omega arith) pos_goal enough
              (ground (arith, t, n_eq)))
    ]
  where
    Good : ℕ → Type 0
    Good r = (r < 256) × (from ((r + 1) * 256) values < goal) × (goal ≤ from (r * 256) values)

    next : (k : ℕ) → below (suc k * 256) values ≡ below ((k + 1) * 256) values
    next k = ap (λ m. below (m * 256) values) (omega arith)

    next' : (k : ℕ) → from (suc k * 256) values ≡ from ((k + 1) * 256) values
    next' k = ap (λ m. from (m * 256) values) (omega arith)
