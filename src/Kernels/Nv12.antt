-- ===== src/Kernels/Nv12.antt =====
-- Work-items that write an NV12 picture, in any order.
use pre.Kernels.{plane_item, Planes, uv_item, nv12_item, run_items}
use pre.Kernels.Order.{
  In, run_items_lem, index_injective, index_in_range, put_lem, cell_kept, Shows, plane_item_lem,
}
use pre.Prelude.{
  ltb, leb, length, length-set, set, get_elem?, get_elem?-set_self, true, ℕ, ◌+◌, ◌*◌, ◌/◌, ◌≤◌,
  ◌<◌, ◌≡◌, refl, ap, ap₂, subst, ◌∙◌, inl, inr, ◌||◌, ◌&&◌, Bool-cases, Option, some, List, arith,
}

-- The squares of two work-items at one index are one square, and no U stands where a V does.
same_square :
    (w x y a b : ℕ) → x < w / 2 → a < w / 2 → y * w + x * 2 ≡ b * w + a * 2 → (x ≡ a) × (y ≡ b)
same_square w x y a b h k e =
    let (ex, ey) = index_injective w (x * 2) y (a * 2) b (omega arith) (omega arith) e in
    (omega (arith, ex), ey)

u-ne-v : (w x y a b : ℕ) → x < w / 2 → a < w / 2 → y * w + x * 2 ≡ b * w + a * 2 + 1 → ⊥
u-ne-v w x y a b h k e =
    let (ex, ey) =
      index_injective w (x * 2) y (a * 2 + 1) b (omega arith) (omega arith) (omega (arith, e)) in
    omega (arith, ex)

module _ (width height : ℕ) (value : ℕ → ℕ → Option (ℕ × ℕ)) (u v : ℕ → ℕ → ℕ)
    (total : (x y : ℕ) → x < width / 2 → y < height / 2 → value x y ≡ some (u x y, v x y)) where
  -- What `uv_out` holds for the square of a work-item.
  abbrev pub ShowsUv : ℕ × ℕ → List ℕ → Type 0
  ShowsUv p out =
      p.0 < width / 2
      → p.1 < height / 2
      → (get_elem? out (p.1 * width + p.0 * 2) ≡ some (u (p.0) (p.1)))
        × (get_elem? out (p.1 * width + p.0 * 2 + 1) ≡ some (v (p.0) (p.1)))

  uv_in_range :
      (x y : ℕ) → x < width / 2 → y < height / 2 → y * width + x * 2 + 1 < width * (height / 2)
  uv_in_range x y hx hy =
      omega (arith, index_in_range width (height / 2) (x * 2 + 1) y (omega arith) hy)

  pub uv_item_lem :
      (n : ℕ)
      → width * (height / 2) ≤ n
      → (q : ℕ × ℕ) (out : List ℕ) → length out ≡ n
      → (out' : List ℕ) × (uv_item width height value q out ≡ some out')
        × (length out' ≡ n)
        × ((p : ℕ × ℕ) → (ShowsUv p out → ShowsUv p out') × (q ≡ p → ShowsUv p out'))
  unfolding uv_item
  uv_item_lem n fits (x, y) out len = elim (Bool-cases (ltb x (width / 2) && ltb y (height / 2))) [
    | inr past ↦ (
      out,
      rw past refl,
      len,
      λ p. (
        (λ f. f),
        λ e in_x in_y. absurd (
            ground (arith, past, in_x, in_y, ap (λ (r : ℕ × ℕ). r.0) e, ap (λ (r : ℕ × ℕ). r.1) e)),
      ),
    )
    | inl inside ↦
        let x_in : x < width / 2 = ground (arith, inside) in
        let y_in : y < height / 2 = ground (arith, inside) in
        let i = y * width + x * 2 in
        let j = y * width + x * 2 + 1 in
        let last : j < length out = omega (arith, uv_in_range x y x_in y_in, len, fits) in
        let first : i < length out = omega (arith, last) in
        let with_u = set out i (u x y) in
        let last' : j < length with_u = omega (arith, last, length-set out i (u x y)) in
        (
          set with_u j (v x y),
          rw (inside, total x y x_in y_in, put_lem out i (u x y) first)
              (put_lem with_u j (v x y) last'),
          length-set with_u j (v x y) ∙ length-set out i (u x y) ∙ len,
          λ p. (
            (λ f in_x in_y.
                let (a, b) = p in
                let (fu, fv) = f in_x in_y in
                (
                  cell_kept with_u j (b * width + a * 2) (v x y) (u a b) last'
                      (λ e. absurd (u-ne-v width a b x y in_x x_in (omega (arith, e))))
                      (cell_kept out i (b * width + a * 2) (u x y) (u a b) first
                        (λ e. let (ex, ey) = same_square width x y a b x_in in_x e in ap₂ u ex ey)
                        fu),
                  cell_kept with_u j (b * width + a * 2 + 1) (v x y) (v a b) last'
                      (λ e.
                        let (ex, ey) = same_square width x y a b x_in in_x (omega (arith, e)) in
                        ap₂ v ex ey)
                      (cell_kept out i (b * width + a * 2 + 1) (u x y) (v a b) first
                        (λ e. absurd (u-ne-v width x y a b x_in in_x e)) fv),
                )),
            λ e.
                subst (λ r. ShowsUv r (set with_u j (v x y))) e
                  (λ in_x in_y. (
                    cell_kept with_u j i (v x y) (u x y) last'
                        (λ same. absurd (omega (arith, same)))
                        (get_elem?-set_self out i (u x y) first),
                    get_elem?-set_self with_u j (v x y) last',
                  )),
          ),
        )
  ]

uv_item_past :
    (width height : ℕ) (value : ℕ → ℕ → Option (ℕ × ℕ)) (x y : ℕ) (out : List ℕ)
    → (leb width x || leb height y) ≡ true
    → uv_item width height value (x, y) out ≡ some out
unfolding uv_item
uv_item_past width height value x y out past =
    elim (Bool-cases (ltb x (width / 2) && ltb y (height / 2))) [
      | inl inside ↦ absurd (ground (arith, past, inside))
      | inr skip ↦ rw skip refl
    ]

-- A kernel's picture: what both buffers hold for a work-item.
module _ (width height : ℕ) (y_value : ℕ → ℕ → Option ℕ) (result : ℕ → ℕ → ℕ)
    (y_total : (x y : ℕ) → x < width → y < height → y_value x y ≡ some (result x y))
    (uv_value : ℕ → ℕ → Option (ℕ × ℕ)) (u v : ℕ → ℕ → ℕ)
    (uv_total : (x y : ℕ)
      → x < width / 2
      → y < height / 2
      → uv_value x y ≡ some (u x y, v x y)) where
  nv12_item-planes :
      (q : ℕ × ℕ) (out : Planes) (ys uvs : List ℕ)
      → plane_item width height y_value q out.y_out ≡ some ys
      → uv_item width height uv_value q out.uv_out ≡ some uvs
      → nv12_item width height y_value uv_value q out ≡ some (record { y_out = ys; uv_out = uvs })
  unfolding nv12_item plane_item
  nv12_item-planes (x, y) out ys uvs e e' = elim (Bool-cases (leb width x || leb height y)) [
    | inl past ↦ ground (arith, past, e, e', uv_item_past width height uv_value x y out.uv_out past)
    | inr inside ↦ ground (arith, inside, e, e')
  ]

  abbrev pub Pictures : ℕ × ℕ → Planes → Type 0
  Pictures p out =
      Shows width height y_value result y_total p out.y_out
      × ShowsUv width height uv_value u v uv_total p out.uv_out

  -- However the work-items of a run are ordered, there is no access out of range, and for each
  -- work-item both buffers hold its values, if buffers and picture have the same size.
  pub nv12_run_lem :
      (items : List (ℕ × ℕ)) (out : Planes)
      → width * height ≤ length out.y_out
      → width * (height / 2) ≤ length out.uv_out
      → (out' : Planes) × (run_items (nv12_item width height y_value uv_value) items out
          ≡ some out')
        × ((p : ℕ × ℕ) → In p items → Pictures p out')
  nv12_run_lem items out y_fits uv_fits =
      let (out', e, inv, facts) =
        run_items_lem (nv12_item width height y_value uv_value)
          (λ o. (length o.y_out ≡ length out.y_out) × (length o.uv_out ≡ length out.uv_out))
          Pictures
          (λ q o inv.
            let (ys, e, len, now) =
              plane_item_lem width height y_value result y_total (length out.y_out) y_fits q o.y_out
                (inv.0) in
            let (uvs, e', len', now') =
              uv_item_lem width height uv_value u v uv_total (length out.uv_out) uv_fits q o.uv_out
                (inv.1) in
            (
              record { y_out = ys; uv_out = uvs },
              nv12_item-planes q o ys uvs e e',
              (len, len'),
              λ p. (
                (λ f. ((now p).0 (f.0), (now' p).0 (f.1))),
                λ same. ((now p).1 same, (now' p).1 same),
              ),
            ))
          items out (refl, refl) in
      (out', e, λ p. (facts p).1)
