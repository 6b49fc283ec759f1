-- ===== src/Kernels/Mean.antt =====
-- What `mean_filter_nv12` of src/config/cl/filter.cl computes.
use pre.Kernels.{plane_item, run_items}
use pre.Kernels.Order.{In, index_in_range, plane_run_lem}
use pre.Kernels.Values.{mean_row, mean_rows, quotient, mean_filter}
use pre.Prelude.{
  ltb, leb, Bool-cases, length, get_elem?, get_or, get_elem?-eq-get_or, ℕ, zero, suc, ◌+◌, ◌-◌, ◌*◌,
  ◌/◌, ◌%◌, ◌^◌, ◌≤◌, ◌<◌, ◌≡◌, refl, ap, inl, inr, true, ◌&&◌, some, List, arith,
}
use pre.Prelude.Int.{pos}
use pre.Kernels.Laws.{value_of, value_of_lem}
use native.Mathlib.Nat.{mul-suc, suc-mul, mul-le-mul_right, le-div_iff_mul-le, div-lt_iff_lt-mul}

-- That sum and count are of values from `lo` to below `hi`.
abbrev Within : ℕ → ℕ → ℕ × ℕ → Type 0
Within lo hi (sum, count) = (lo * count ≤ sum) × (sum + count ≤ hi * count)

module _ (input : List ℕ) (width height half lo hi : ℕ) (fits : width * height ≤ length input)
    (bounds : (i v : ℕ) → get_elem? input i ≡ some v → (lo ≤ v) × (v < hi)) (bytes : hi ≤ 256) where
  -- A sum of so few bytes is an int.
  sum_fits :
      (sum count v : ℕ) → sum + count ≤ hi * count → v < hi → count < 2 ^ 23 → sum + v < 2 ^ 31
  sum_fits sum count v u uv small = omega (arith, u, uv, mul-le-mul_right count bytes, bytes, small)

  -- The row's own pixel at column `x` is counted, if the loop has it still before it.
  mean_row_lem :
      (row x left at sum count : ℕ)
      → row < height
      → x < width
      → count + left ≤ 2 ^ 23
      → Within lo hi (sum, count)
      → (r : ℕ × ℕ) × (mean_row input width half row left at sum count ≡ some r)
        × Within lo hi r
        × (count ≤ r.1)
        × (r.1 ≤ count + left)
        × (at ≤ half + x → half + x < at + left → count < r.1)
  unfolding mean_row
  mean_row_lem row x zero at sum count in_row in_width few w =
      ((sum, count), refl, w, omega arith, omega arith, λ h k. absurd (omega (arith, h, k)))
  mean_row_lem row x (suc left) at sum count in_row in_width few (l, u) =
      elim (Bool-cases (leb half at && ltb (at - half) width)) [
        | inl inside ↦
            let i = row * width + (at - half) in
            let at_in : at - half < width = ground (arith, inside) in
            let v = get_or input i 0 in
            let e =
              get_elem?-eq-get_or input i 0
                (omega (arith, index_in_range width height (at - half) row at_in in_row, fits)) in
            let (lv, uv) = bounds i v e in
            let an_int : ltb (sum + v) (2 ^ 31) ≡ true =
              ground (arith, sum_fits sum count v u uv (omega (arith, few))) in
            let (r, e', w', grows, least, own) =
              mean_row_lem row x left (at + 1) (sum + v) (count + 1) in_row in_width
                (omega (arith, few))
                (omega (arith, l, lv, mul-suc lo count), omega (arith, u, uv, mul-suc hi count)) in
            (
              r,
              rw (inside, e, an_int) e',
              w',
              omega (arith, grows),
              omega (arith, least),
              λ h k. omega (arith, grows),
            )
        | inr outside ↦
            let (r, e', w', grows, least, own) =
              mean_row_lem row x left (at + 1) sum count in_row in_width (omega (arith, few))
                (l, u) in
            (
              r,
              rw outside e',
              w',
              grows,
              omega (arith, least),
              λ h k. own (ground (arith, outside, h, in_width)) (omega (arith, k)),
            )
      ]

  mean_rows_lem :
      (x y left at sum count : ℕ)
      → x < width
      → y < height
      → count + left * (2 * half + 1) ≤ 2 ^ 23
      → Within lo hi (sum, count)
      → (r : ℕ × ℕ) × (mean_rows input width height half x left at sum count ≡ some r)
        × Within lo hi r
        × (count ≤ r.1)
        × (at ≤ half + y → half + y < at + left → count < r.1)
  unfolding mean_rows
  mean_rows_lem x y zero at sum count in_x in_y few w =
      ((sum, count), refl, w, omega arith, λ h k. absurd (omega (arith, h, k)))
  mean_rows_lem x y (suc left) at sum count in_x in_y few w =
      let split : suc left * (2 * half + 1) ≡ left * (2 * half + 1) + (2 * half + 1) =
        omega (arith, suc-mul left (2 * half + 1)) in
      elim (Bool-cases (leb half at && ltb (at - half) height)) [
        | inl inside ↦
            let (q, e, w', more, least, own_row) =
              mean_row_lem (at - half) x (2 * half + 1) x sum count (ground (arith, inside)) in_x
                (omega (arith, few, split)) w in
            let (r, e', w'', grows, own) =
              mean_rows_lem x y left (at + 1) (q.0) (q.1) in_x in_y
                (omega (arith, few, split, least)) w' in
            (
              r,
              rw (inside, e) e',
              w'',
              omega (arith, more, grows),
              λ h k. omega (arith, own_row (omega arith) (omega arith), grows),
            )
        | inr outside ↦
            let (r, e', w', grows, own) =
              mean_rows_lem x y left (at + 1) sum count in_x in_y (omega (arith, few, split)) w in
            (
              r,
              rw outside e',
              w',
              grows,
              λ h k. own (ground (arith, outside, h, in_y)) (omega (arith, k)),
            )
      ]

-- The pixels of a window fit an int, as a sum of bytes.
abbrev pub IsSmall : ℕ → Type 0
IsSmall window_size = (2 * (window_size / 2) + 1) * (2 * (window_size / 2) + 1) ≤ 2 ^ 23

-- At a pixel the filter divides by a count that is not 0.
mean_filter_lem :
    (input : List ℕ) (width height window_size lo hi x y : ℕ)
    → width * height ≤ length input
    → ((i v : ℕ) → get_elem? input i ≡ some v → (lo ≤ v) × (v < hi))
    → hi ≤ 256
    → IsSmall window_size
    → x < width
    → y < height
    → (m : ℕ) × (mean_filter input width height (pos window_size) x y ≡ some m)
      × (lo ≤ m)
      × (m < hi)
unfolding mean_filter
mean_filter_lem input width height window_size lo hi x y fits bounds bytes small in_x in_y =
    let half = window_size / 2 in
    let ((sum, count), e, (l, u), grows, own) =
      mean_rows_lem input width height half lo hi fits bounds bytes x y (2 * half + 1) y 0 0 in_x
        in_y (omega (arith, small)) (omega arith, omega arith) in
    let some_in : 0 < count = own (omega arith) (omega arith) in
    let below : sum / count < hi = (div-lt_iff_lt-mul some_in).1 (omega (arith, u, some_in)) in
    let same : sum / count % 2 ^ 8 ≡ sum / count = omega (arith, below, bytes) in
    let divides : quotient sum count ≡ some (sum / count) = ground (arith, some_in) in
    (sum / count, rw (e, divides) (ap (λ a. some a) same), (le-div_iff_mul-le some_in).1 l, below)

-- At a work-item inside of the picture, with a window that is not negative and of at most 2 ^ 23 pixels:
-- in whatever order the work-items run, `mean_filter_nv12` of bytes accesses nothing out of range,
-- overflows no int and does not divide by 0; the pixel of that work-item is then a byte, within every
-- bounds that hold of the input.
pub mean_filter_run :
    (input out : List ℕ) (width height window_size lo hi : ℕ) (items : List (ℕ × ℕ)) (x y : ℕ)
    → In (x, y) items
    → x < width
    → y < height
    → width * height ≤ length input
    → width * height ≤ length out
    → ((i v : ℕ) → get_elem? input i ≡ some v → (lo ≤ v) × (v < hi))
    → hi ≤ 256
    → IsSmall window_size
    → (out' : List ℕ) × (m : ℕ) × (run_items
          (plane_item width height (mean_filter input width height (pos window_size)))
          items
          out
        ≡ some out')
      × (get_elem? out' (y * width + x) ≡ some m)
      × (lo ≤ m)
      × (m < hi)
mean_filter_run input out width height window_size lo hi items x y i h k fits fits' bounds bytes
      small =
    let value = mean_filter input width height (pos window_size) in
    let at = λ (x y : ℕ) (h : x < width) (k : y < height).
      mean_filter_lem input width height window_size lo hi x y fits bounds bytes small h k in
    let (out', e, len, shows) =
      plane_run_lem width height value (λ x y. value_of 0 (value x y))
        (λ x y h k. let (m, em, l, u) = at x y h k in value_of_lem 0 (value x y) (m, em)) items out
        fits' in
    let (m, em, l, u) = at x y h k in (out', m, e, ground (arith, shows (x, y) i h k, em), l, u)
