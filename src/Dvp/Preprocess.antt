-- ===== src/Dvp/Preprocess.antt =====
-- `DVP_IR_Preprocess` of src/media/vi/v4l2_dvp.c, which is compiled where frames are to be saved: the
-- steps from a captured image to the one that takes its place. An image is the list of its pixels,
-- row by row.
mod Sorting
mod Laws
mod Tests
use pre.Prelude.Counting.{count_if}
use pre.Prelude.{
  ltb, leb, if◌then◌else◌, length, get_or, drop, ℕ, zero, suc, ◌+◌, ◌-◌, ◌*◌, ◌/◌, ◌&&◌, List, [],
  ◌∷◌, ◌++◌, map,
}
use pre.Prelude.Int.{pos}
use pre.Prelude.Floats.{Floats}

abbrev pub abs_diff : ℕ → ℕ → ℕ
abs_diff a b = if ltb a b then b - a else a - b

-- Step 1, the background's subtraction, of two images of the same size.
unfoldable pub subtract : List ℕ → List ℕ → List ℕ
subtract [] background = []
subtract (a ∷ image) [] = []
subtract (a ∷ image) (b ∷ background) = abs_diff a b ∷ subtract image background

-- Step 1.5 for one pixel, with that of the frame before and of the one before that. The conversion of
-- a product that does not fit 16 bits is left to the arithmetic.
unfoldable pub enhance : Floats → ℕ → ℕ → ℕ → ℕ
enhance fl pixel prev prev_prev =
    let diff_prev = abs_diff pixel prev in
    let diff_prev_prev = abs_diff pixel prev_prev in
    let enhanced_pixel = (pixel - 25) * 5535 / 75 + 60000 in
    let of_ℕ = λ (n : ℕ). fl.of_ℤ (pos n) in
    let half = fl.div (of_ℕ 1) (of_ℕ 2) in
    let gas_add_factor =
      fl.add half (fl.div (fl.mul (fl.sub (of_ℕ 2) half) (of_ℕ (diff_prev_prev - 25))) (of_ℕ 75)) in
    let enhancement_factor = (diff_prev_prev - 25) * 50 / 75 + 100 in
    if leb 25 pixel && leb pixel 100
    then (if leb 25 diff_prev && leb diff_prev 64
        then enhanced_pixel
        else if leb 25 diff_prev_prev && leb diff_prev_prev 100
        then fl.to_ℕ
            (fl.div (fl.mul (of_ℕ (enhanced_pixel * enhancement_factor)) gas_add_factor) (of_ℕ 100))
        else pixel)
    else pixel

-- Step 1.5 for an image.
unfoldable pub enhance_all : Floats → List ℕ → List ℕ → List ℕ → List ℕ
enhance_all fl [] prev prev_prev = []
enhance_all fl (p ∷ image) prev prev_prev =
    enhance fl p (get_or prev 0 0) (get_or prev_prev 0 0)
    ∷ enhance_all fl image (drop 1 prev) (drop 1 prev_prev)

-- `cdf` at a value: how many pixels from 256 up to it the histogram has counted.
unfoldable pub cdf : List ℕ → ℕ → ℕ
cdf image value = count_if (λ p. leb 256 p && leb p value) image

-- Step 2 for one pixel; `scaled` multiplies with `scale` and truncates.
unfoldable pub equalize : (ℕ → ℕ) → List ℕ → ℕ → ℕ
equalize scaled image pixel = if leb 64 pixel then scaled (cdf image pixel) else pixel

-- `max_pixel_value`, from what was found so far.
unfoldable pub max_pixel : ℕ → List ℕ → ℕ
max_pixel found [] = found
max_pixel found (p ∷ image) = max_pixel (if ltb found p && leb 256 p then p else found) image

-- Step 3 for one pixel; `mapped` multiplies with `mapping_scale` and truncates.
unfoldable pub map_pixel : (ℕ → ℕ) → ℕ → ℕ
map_pixel mapped pixel = if leb 256 pixel then mapped pixel else pixel

-- The inner loop around a pixel: the pixels of a row that lie in the image, where `at` is the column
-- plus `half`, with the rounds left.
unfoldable pub around_row : List ℕ → ℕ → ℕ → ℕ → ℕ → ℕ → List ℕ
around_row image width half row zero at = []
around_row image width half row (suc left) at =
    let rest = around_row image width half row left (at + 1) in
    if leb half at && ltb (at - half) width
    then get_or image (row * width + (at - half)) 0 ∷ rest
    else rest

-- The outer loop, where `at` is the row plus `half`.
unfoldable pub around_rows : List ℕ → ℕ → ℕ → ℕ → ℕ → ℕ → ℕ → List ℕ
around_rows image width height half j zero at = []
around_rows image width height half j (suc left) at =
    let rest = around_rows image width height half j left (at + 1) in
    if leb half at && ltb (at - half) height
    then around_row image width half (at - half) (2 * half + 1) j ++ rest
    else rest

-- The square of side `2 * half + 1` around the pixel of row `i` and column `j`.
unfoldable pub neighborhood : List ℕ → ℕ → ℕ → ℕ → ℕ → ℕ → List ℕ
neighborhood image width height half i j = around_rows image width height half j (2 * half + 1) i

-- The inner loop of the sort: so many neighbours are compared, and swapped where out of order.
unfoldable pub bubble : ℕ → List ℕ → List ℕ
bubble zero xs = xs
bubble (suc left) [] = []
bubble (suc left) (a ∷ []) = a ∷ []
bubble (suc left) (a ∷ b ∷ xs) =
    (if ltb b a then b else a) ∷ bubble left ((if ltb b a then a else b) ∷ xs)

-- The outer loop.
unfoldable pub bubbles : ℕ → List ℕ → List ℕ
bubbles zero xs = xs
bubbles (suc left) xs = bubbles left (bubble (suc left) xs)

unfoldable pub bubble_sort : List ℕ → List ℕ
bubble_sort xs = bubbles (length xs - 1) xs

-- The median filter at a pixel.
unfoldable pub median_at : List ℕ → ℕ → ℕ → ℕ → ℕ → ℕ
median_at image width height i j =
    let around = neighborhood image width height 1 i j in
    let median_value = get_or (bubble_sort around) (length around / 2) 0 in
    let pixel = get_or image (i * width + j) 0 in
    if ltb 10000 (abs_diff pixel median_value) && ltb median_value 100 then median_value else pixel

unfoldable pub sum : List ℕ → ℕ
sum [] = 0
sum (x ∷ xs) = x + sum xs

-- The mean filter at a pixel.
unfoldable pub mean_at : List ℕ → ℕ → ℕ → ℕ → ℕ → ℕ
mean_at image width height i j =
    let around = neighborhood image width height 2 i j in sum around / length around

-- A function of row and column over an image, from row `i` and column `j` with the rows and columns left.
unfoldable pub row_of : (ℕ → ℕ → ℕ) → ℕ → ℕ → ℕ → List ℕ
row_of f i zero j = []
row_of f i (suc left) j = f i j ∷ row_of f i left (j + 1)

unfoldable pub image_of : (ℕ → ℕ → ℕ) → ℕ → ℕ → ℕ → List ℕ
image_of f width zero i = []
image_of f width (suc left) i = row_of f i width 0 ++ image_of f width left (i + 1)

-- The frames that last from call to call.
pub record Frames : Type 0 where
  pub background_image : List ℕ
  pub prev_frame : List ℕ
  pub prev_prev_frame : List ℕ

-- `DVP_IR_Preprocess` of an image, with the two products in floating point of steps 2 and 3, the latter
-- of the largest pixel and a pixel.
unfoldable pub preprocess :
    Floats → (ℕ → ℕ) → (ℕ → ℕ → ℕ) → ℕ → ℕ → List ℕ → Frames → List ℕ × Frames
preprocess fl scaled mapped width height image_data frames =
    let subtracted = subtract image_data frames.background_image in
    let enhanced = enhance_all fl subtracted frames.prev_frame frames.prev_prev_frame in
    let equalized = map (equalize scaled enhanced) enhanced in
    let stretched = map (map_pixel (mapped (max_pixel 0 equalized))) equalized in
    let median_filtered = image_of (median_at stretched width height) width height 0 in
    let mean_filtered = image_of (mean_at median_filtered width height) width height 0 in
    (mean_filtered, record frames { prev_prev_frame = frames.prev_frame; prev_frame = subtracted })
