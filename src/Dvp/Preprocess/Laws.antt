-- ===== src/Dvp/Preprocess/Laws.antt =====
-- What the filters give.
use pre.Dvp.Preprocess.{
  abs_diff, around_row, around_rows, neighborhood, bubble_sort, median_at, sum, mean_at,
}
use pre.Dvp.Preprocess.Sorting.{bubble_sort_lem}
use pre.QuickSelect.Laws.{IsSelected}
use pre.QuickSelect.Order.{IsSelected-rank}
use pre.Prelude.Counting.{below}
use native.Mathlib.Nat.{mul-suc, le-div_iff_mul-le, div-lt_iff_lt-mul}
use pre.Prelude.{
  ltb, leb, if◌then◌else◌, ◌++◌, subst, ◌==◌, Bool-cases, length, length-append, get_or, All, ℕ,
  zero, suc, ◌+◌, ◌-◌, ◌*◌, ◌/◌, ◌≤◌, ◌<◌, ◌≡◌, refl, inl, inr, ◌&&◌, List, [], ◌∷◌, arith,
}

-- The square around a pixel of the image has at least that pixel.
around_row_some :
    (image : List ℕ) (width half row left at j : ℕ)
    → at ≤ j + half
    → j + half < at + left
    → j < width
    → 0 < length (around_row image width half row left at)
unfolding around_row
around_row_some image width half row zero at j le lt in_width = absurd (omega arith)
around_row_some image width half row (suc left) at j le lt in_width =
    let rest = around_row image width half row left (at + 1) in
    elim (Bool-cases (leb half at && ltb (at - half) width)) [
      | inl e ↦ ground (arith, e)
      | inr e ↦ ground (
        arith,
        e,
        around_row_some image width half row left (at + 1) j (ground (arith, e, le, in_width))
            (omega (arith, lt)) in_width,
      )
    ]

around_rows_some :
    (image : List ℕ) (width height half j left at i : ℕ)
    → at ≤ i + half
    → i + half < at + left
    → i < height
    → j < width
    → 0 < length (around_rows image width height half j left at)
unfolding around_rows
around_rows_some image width height half j zero at i le lt in_height in_width = absurd (omega arith)
around_rows_some image width height half j (suc left) at i le lt in_height in_width =
    let row = around_row image width half (at - half) (2 * half + 1) j in
    let rest = around_rows image width height half j left (at + 1) in
    elim (Bool-cases (leb half at && ltb (at - half) height)) [
      | inl e ↦ ground (
        arith,
        e,
        length-append row rest,
        around_row_some image width half (at - half) (2 * half + 1) j j (omega arith) (omega arith)
            in_width,
      )
      | inr e ↦ ground (
        arith,
        e,
        around_rows_some image width height half j left (at + 1) i
            (ground (arith, e, le, in_height)) (omega (arith, lt)) in_height in_width,
      )
    ]

neighborhood_some :
    (image : List ℕ) (width height half i j : ℕ)
    → i < height
    → j < width
    → 0 < length (neighborhood image width height half i j)
unfolding neighborhood
neighborhood_some image width height half i j in_height in_width =
    around_rows_some image width height half j (2 * half + 1) i i (omega arith) (omega arith)
      in_height in_width

-- The middle of the sorted square is a selection.
middle-IsSelected :
    (xs : List ℕ)
    → 0 < length xs
    → IsSelected (length xs / 2) xs (get_or (bubble_sort xs) (length xs / 2) 0) (bubble_sort xs)
middle-IsSelected xs some_in =
    let (items, same, sorted) = bubble_sort_lem xs in
    record {
      items = items;
      same_length = same;
      value = refl;
      before = λ i lt. sorted i (length xs / 2) lt (omega arith);
      after = λ j le lt. elim (Bool-cases (length xs / 2 == j)) [
        | inl e ↦ ground (arith, e)
        | inr e ↦ sorted (length xs / 2) j (ground (arith, e, le)) (omega (arith, lt, same))
      ];
    }

-- The pixel of a row and a column, the column counted from 1, if the column is in the image.
abbrev pub cell : List ℕ → ℕ → ℕ → ℕ → List ℕ
cell image width row column =
    if leb 1 column && ltb (column - 1) width
    then get_or image (row * width + (column - 1)) 0 ∷ []
    else []

-- Three pixels of a row, counted from 1 too, if the row is in the image.
abbrev pub three : List ℕ → ℕ → ℕ → ℕ → ℕ → List ℕ
three image width height row j =
    if leb 1 row && ltb (row - 1) height
    then cell image width (row - 1) j
      ++ cell image width (row - 1) (j + 1)
      ++ cell image width (row - 1) (j + 2)
    else []

-- The pixels of the image among the nine around row `i` and column `j`.
abbrev pub nine : List ℕ → ℕ → ℕ → ℕ → ℕ → List ℕ
nine image width height i j =
    three image width height i j
    ++ three image width height (i + 1) j
    ++ three image width height (i + 2) j

around_row-eq :
    (image : List ℕ) (width row j : ℕ)
    → around_row image width 1 row 3 j
      ≡ cell image width row j ++ cell image width row (j + 1) ++ cell image width row (j + 2)
unfolding around_row
around_row-eq image width row j = ground arith

neighborhood-eq :
    (image : List ℕ) (width height i j : ℕ)
    → neighborhood image width height 1 i j ≡ nine image width height i j
unfolding neighborhood around_rows
neighborhood-eq image width height i j = ground (
  arith,
  around_row-eq image width (i - 1) j,
  around_row-eq image width (i + 1 - 1) j,
  around_row-eq image width (i + 2 - 1) j,
)

-- At a pixel of the image, the median filter puts the median of the up to nine pixels around there, if
-- it is less than 100 and differs from the pixel by more than 10000, and else keeps the pixel. At
-- most half of those pixels lie below the median, and more than half lie not above it.
pub median_at_lem :
    (image : List ℕ) (width height i j : ℕ)
    → i < height
    → j < width
    → let around = nine image width height i j in
      let pixel = get_or image (i * width + j) 0 in
      (median : ℕ) × (below median around ≤ length around / 2)
      × (length around / 2 < below (suc median) around)
      × (median_at image width height i j
          ≡ (if ltb 10000 (abs_diff pixel median) && ltb median 100 then median else pixel))
unfolding median_at
median_at_lem image width height i j in_height in_width =
    let around = neighborhood image width height 1 i j in
    let some_in = neighborhood_some image width height 1 i j in_height in_width in
    let s = middle-IsSelected around some_in in
    let median = get_or (bubble_sort around) (length around / 2) 0 in
    let (few, many) =
      IsSelected-rank (length around / 2) median around (bubble_sort around)
        (omega (arith, some_in)) s in
    let same = neighborhood-eq image width height i j in
    (
      median,
      subst (λ l. below median l ≤ length l / 2) same few,
      subst (λ l. length l / 2 < below (suc median) l) same many,
      refl,
    )

sum_bounds :
    (lo hi : ℕ) (xs : List ℕ)
    → All (λ v. (lo ≤ v) × (v < hi)) xs
    → (lo * length xs ≤ sum xs) × (sum xs + length xs ≤ hi * length xs)
unfolding sum
sum_bounds lo hi [] all = (omega arith, omega arith)
sum_bounds lo hi (x ∷ xs) ((l, h), all) =
    let (a, b) = sum_bounds lo hi xs all in
    (omega (arith, a, l, mul-suc lo (length xs)), omega (arith, b, h, mul-suc hi (length xs)))

-- At a pixel of the image the mean filter divides by the number of pixels of its square, which is not
-- 0, and gives a value within every bounds that hold of these pixels.
pub mean_at_lem :
    (image : List ℕ) (width height i j lo hi : ℕ)
    → i < height
    → j < width
    → let around = neighborhood image width height 2 i j in
      All (λ v. (lo ≤ v) × (v < hi)) around
      → (0 < length around)
        × (lo ≤ mean_at image width height i j)
        × (mean_at image width height i j < hi)
unfolding mean_at
mean_at_lem image width height i j lo hi in_height in_width all =
    let around = neighborhood image width height 2 i j in
    let some_in = neighborhood_some image width height 2 i j in_height in_width in
    let (a, b) = sum_bounds lo hi around all in
    (
      some_in,
      (le-div_iff_mul-le some_in).1 a,
      (div-lt_iff_lt-mul some_in).1 (omega (arith, b, some_in)),
    )
