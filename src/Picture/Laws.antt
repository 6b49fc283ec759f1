-- ===== src/Picture/Laws.antt =====
-- What one frame does.
use pre.Picture.{Picture, FrameReplies, copied, mean_nv12}
use pre.Gas.Laws.{IsThresholds}
use pre.Lut.{Lut}
use pre.Cl.Filter.{FilterCl, process_mean}
use pre.Cl.Kernel
use pre.Cl.{Slot}
use pre.Prelude.{
  length, take, drop, replicate, take_all, drop_all, length-replicate, ℕ, ◌+◌, ◌*◌, ◌/◌, ◌≤◌, ◌<◌,
  ◌≡◌, ap, ◌∙◌, Bool, Option, some, List, ◌++◌, append-nil, arith,
}
use pre.Prelude.Floats.{Floats}
use pre.Cl.Kernel.{run}
use pre.Prelude.Int.{pos, negsuc}

run_failed :
    {A : Type 0} (r : Kernel.Replies A) (initialized : Bool) (output : List A)
    → (run r initialized output).0 ≡ negsuc 0
    → (run r initialized output).1 ≡ output
unfolding run
run_failed r initialized output h = ground (arith, h)

-- Where OpenCL fails, the mean filter blacks out the plane that it was to smooth.
pub mean_nv12_failed :
    (r : Kernel.Replies ℕ) (cl : FilterCl) (yuv : List ℕ) (y_size : ℕ)
    → (process_mean r cl (replicate y_size 0)).0 ≡ negsuc 0
    → length yuv ≡ y_size
    → mean_nv12 r cl yuv y_size ≡ some (replicate y_size 0)
unfolding mean_nv12 process_mean
mean_nv12_failed r cl yuv y_size h len =
    let black : List ℕ = replicate y_size 0 in
    let n : length black ≡ y_size = length-replicate y_size 0 in
    let all : take y_size black ++ drop y_size yuv ≡ black =
      ap (λ xs. xs ++ drop y_size yuv) (take_all y_size black n)
      ∙ ap (λ xs. black ++ xs) (drop_all y_size yuv (omega (arith, len)))
      ∙ append-nil black in
    ap (λ xs. copied y_size xs yuv) (run_failed r cl.initialized black h)
    ∙ ground (arith, n, len, all)

-- The buffers of a picture and the answers that are read into them have the sizes that the program
-- gives them, and the colour mode is at least 0.
pub record IsWhole {fl : Floats} (r : FrameReplies fl) (width height : ℕ) (p : Picture fl)
    : Type 0 where
  pub thresholds : IsThresholds r.cv
  pub ordered :
      let n = (height + 3) / 4 * ((width + 3) / 4) in
      (r.min_idx n ≤ r.max_idx n) × (r.max_idx n < n)
  pub tm_read : length r.tm.result ≡ width * height
  pub diff_read : length r.diff.result ≡ width * height
  pub mean_read : length r.mean.result ≡ width * height
  pub blur_keeps : (xs : List ℕ) → length (r.median_blur xs) ≡ length xs
  pub planes_keep :
      (drawn : Option Slot) (y uv : List ℕ) → length ((r.planes drawn (y, uv)).0) ≡ length y
  pub mode : (n : ℕ) × (p.usr.pseudo ≡ pos n)
  pub input_fits : width * height ≤ length p.algo_in
  pub float_fits : width * height ≤ length p.shm_out_float
  pub y_fits : width * height ≤ length p.y
  pub uv_fits : width * height / 2 ≤ length p.uv
  pub diff_fits : width * height ≤ length p.g_diff_result
