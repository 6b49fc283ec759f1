-- ===== src/Kernels/Order.antt =====
-- Work-items in any order: what a run writes does not depend on it.
use pre.Kernels.{put, plane_item, run_items}
use pre.Prelude.{
  ltb, leb, length, length-set, set, get_elem?, get_elem?-set_self, get_elem?-set_ne, ℕ, ◌+◌, ◌*◌,
  ◌≤◌, ◌<◌, ◌≡◌, refl, ap, ap₂, subst, ◌∙◌, suc, ltb→lt, ◌⊎◌, inl, inr, ◌||◌, Bool-cases, Option,
  some, List, [], ◌∷◌, lt→ltb, ◌==◌, arith,
}
use native.Mathlib.Nat.{mul-le-mul_right, suc-mul}

-- Whether a work-item is among those of a run.
abbrev pub In : ℕ × ℕ → List (ℕ × ℕ) → Type 0
In p [] = ⊥
In p (q ∷ items) = (q ≡ p) ⊎ In p items

-- Where each work-item keeps an invariant and what holds of each pixel, and brings about what is to
-- hold of its own, a run accesses nothing out of range, and ends with all of these.
pub run_items_lem :
    {S : Type 0} (item : ℕ × ℕ → S → Option S) (Inv : S → Type 0) (Fact : ℕ × ℕ → S → Type 0)
    → ((q : ℕ × ℕ) (s : S)
        → Inv s
        → (s' : S) × (item q s ≡ some s')
          × Inv s'
          × ((p : ℕ × ℕ) → (Fact p s → Fact p s') × (q ≡ p → Fact p s')))
    → (items : List (ℕ × ℕ)) (s : S) → Inv s
    → (s' : S) × (run_items item items s ≡ some s')
      × Inv s'
      × ((p : ℕ × ℕ) → (Fact p s → Fact p s') × (In p items → Fact p s'))
unfolding run_items
run_items_lem item Inv Fact step [] s inv = (s, refl, inv, λ p. ((λ f. f), λ h. elim h [ ]))
run_items_lem item Inv Fact step (q ∷ items) s inv =
    let (t, e, inv', now) = step q s inv in
    let (u, e', inv'', later) = run_items_lem item Inv Fact step items t inv' in
    (
      u,
      ground (arith, e, e'),
      inv'',
      λ p.
          let (kept, met) = now p in
          let (kept', met') = later p in
          ((λ f. kept' (kept f)), λ i. elim i [ inl eq ↦ kept' (met eq) | inr more ↦ met' more ]),
    )

row_lt : (w x y x' y' : ℕ) → x < w → y < y' → y * w + x < y' * w + x'
row_lt w x y x' y' h lt =
    let rows : suc y * w ≤ y' * w = mul-le-mul_right w (omega arith) in
    omega (arith, rows, suc-mul y w, h)

-- Two pixels of one row length at one index are one pixel.
pub index_injective :
    (w x y x' y' : ℕ) → x < w → x' < w → y * w + x ≡ y' * w + x' → (x ≡ x') × (y ≡ y')
index_injective w x y x' y' h h' e = elim (Bool-cases (ltb y y')) [
  | inl lt ↦ absurd (omega (arith, e, row_lt w x y x' y' h (ltb→lt y y' lt)))
  | inr ge ↦ elim (Bool-cases (ltb y' y)) [
    | inl lt ↦ absurd (omega (arith, e, row_lt w x' y' x y h' (ltb→lt y' y lt)))
    | inr le ↦
        let same : y ≡ y' = ground (arith, ge, le) in
        (omega (arith, e, ap (λ (t : ℕ). t * w) same), same)
  ]
]

pub index_in_range : (w h x y : ℕ) → x < w → y < h → y * w + x < w * h
index_in_range w h x y p q = grind arith

pub put_lem :
    {A : Type 0} (xs : List A) (i : ℕ) (v : A) → i < length xs → put xs i v ≡ some (set xs i v)
unfolding put
put_lem xs i v h = rw (lt→ltb i (length xs) h) refl

-- A write keeps what another index holds, and what its own holds where it is written again.
pub cell_kept :
    {A : Type 0} (xs : List A) (i j : ℕ) (v u : A)
    → i < length xs
    → (i ≡ j → v ≡ u)
    → get_elem? xs j ≡ some u
    → get_elem? (set xs i v) j ≡ some u
cell_kept xs i j v u h agree held = elim (Bool-cases (i == j)) [
  | inl e ↦
      let same : i ≡ j = ground (arith, e) in
      subst (λ k. get_elem? (set xs i v) k ≡ some u) same
        (get_elem?-set_self xs i v h ∙ ap (λ a. some a) (agree same))
  | inr e ↦ get_elem?-set_ne xs v (λ same. ground (arith, e, same)) ∙ held
]

module _ {A : Type 0} (width height : ℕ) (value : ℕ → ℕ → Option A) (result : ℕ → ℕ → A)
    (total : (x y : ℕ) → x < width → y < height → value x y ≡ some (result x y)) where
  -- What a buffer holds at a pixel.
  abbrev pub Shows : ℕ × ℕ → List A → Type 0
  Shows p out =
      p.0 < width → p.1 < height → get_elem? out (p.1 * width + p.0) ≡ some (result (p.0) (p.1))

  pub plane_item_lem :
      (n : ℕ)
      → width * height ≤ n
      → (q : ℕ × ℕ) (out : List A) → length out ≡ n
      → (out' : List A) × (plane_item width height value q out ≡ some out')
        × (length out' ≡ n)
        × ((p : ℕ × ℕ) → (Shows p out → Shows p out') × (q ≡ p → Shows p out'))
  unfolding plane_item
  plane_item_lem n fits (x, y) out len = elim (Bool-cases (leb width x || leb height y)) [
    | inl past ↦ (
      out,
      rw past refl,
      len,
      λ p. (
        (λ f. f),
        λ e in_x in_y. absurd (
            ground (arith, past, in_x, in_y, ap (λ (r : ℕ × ℕ). r.0) e, ap (λ (r : ℕ × ℕ). r.1) e)),
      ),
    )
    | inr inside ↦
        let x_in : x < width = ground (arith, inside) in
        let y_in : y < height = ground (arith, inside) in
        let i = y * width + x in
        let at : i < length out =
          omega (arith, index_in_range width height x y x_in y_in, len, fits) in
        (
          set out i (result x y),
          rw (inside, total x y x_in y_in) (put_lem out i (result x y) at),
          length-set out i (result x y) ∙ len,
          λ p. (
            (λ f in_x in_y.
                cell_kept out i (p.1 * width + p.0) (result x y) (result (p.0) (p.1)) at
                  (λ e.
                    let (ex, ey) = index_injective width x y (p.0) (p.1) x_in in_x e in
                    ap₂ result ex ey)
                  (f in_x in_y)),
            λ e in_x in_y.
                subst
                  (λ r.
                    get_elem? (set out i (result x y)) (r.1 * width + r.0)
                    ≡ some (result (r.0) (r.1)))
                  e (get_elem?-set_self out i (result x y) at),
          ),
        )
  ]

  -- However the work-items of a run are ordered, and however often one is run, there is no access out
  -- of range, and each pixel that some work-item stands at holds its value.
  pub plane_run_lem :
      (items : List (ℕ × ℕ)) (out : List A)
      → width * height ≤ length out
      → (out' : List A) × (run_items (plane_item width height value) items out ≡ some out')
        × (length out' ≡ length out)
        × ((p : ℕ × ℕ) → In p items → Shows p out')
  plane_run_lem items out fits =
      let (out', e, len, facts) =
        run_items_lem (plane_item width height value) (λ o. length o ≡ length out) Shows
          (plane_item_lem (length out) fits) items out refl in
      (out', e, len, λ p. (facts p).1)
