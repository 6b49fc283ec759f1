-- ===== src/Picture.antt =====
-- One frame from the raw pixels to the picture: `Process_One_Frame` of src/media/algo/algo.cpp, with
-- `class Pseudo`, `class Filter` and `class Temperature_Measurement` of the directories beside it,
-- over the OpenCL wrappers, the range and the gas difference.
pub mod Laws
pub mod Tests
use pre.Range.{PseudoAdaptiveMapper, update_range}
use pre.Gas.{Thresholds, process_raw_stats_cv_vague}
use pre.Lut.{Lut, Outcome, done, out_of_range, get_lut}
use pre.Config.Params.{TempParams}
use pre.Config.User.{white_hot, black_hot, pseudo_number, UserConfig}
use pre.Cl.Pseudo.{PseudoCl}
use pre.Cl.PseudoLut.{LutBuffers, LutReplies, RunReplies, process_nv12, process_isotherms}
use pre.Cl.Tm.{Tmcl, tmcl_process}
use pre.Cl.Diff.{DiffCl}
use pre.Cl.Filter.{FilterCl, process_mean, process_bilateral}
use pre.Cl.{Slot}
use pre.Cl.Kernel
use pre.Prelude.{
  ◌==◌, leb, if◌then◌else◌, ◌>>=◌, length, take, drop, replicate, ℕ, ◌*◌, ◌/◌, ◌%◌, Bool, true,
  false, not, ◌&&◌, ◌||◌, Option, none, some, List, ◌++◌,
}
use pre.Prelude.Floats.{Floats}
use pre.Prelude.Int.{ℤ, pos, negsuc, pos_part}

-- What the parts of a frame read and write. `locked` is whether this thread holds `usr.mutex`.
pub record Picture (fl : Floats) : Type 0 where
  pub usr : UserConfig fl.F
  pub locked : Bool
  pub algo_in : List ℕ
  pub shm_out_float : List fl.F
  pub y : List ℕ
  pub uv : List ℕ
  pub g_diff_result : List ℕ
  pub last_frame : List ℕ
  pub mapper : PseudoAdaptiveMapper fl
  pub luts : List Lut
  pub lut_buffers : LutBuffers
  pub tm_cl : Tmcl
  pub diff_cl : DiffCl
  pub pseudo_cl : PseudoCl
  pub filter_cl : FilterCl

-- The answers of OpenCL and OpenCV for a frame, and the arithmetic that C does in floating point.
-- `planes` are the two planes after the colour kernel that was read, if one was.
pub record FrameReplies (fl : Floats) : Type 0 where
  pub tm : Kernel.Replies fl.F
  pub diff : Kernel.Replies ℕ
  pub cv : Thresholds
  pub median_blur : List ℕ → List ℕ
  pub run : RunReplies
  pub lut : LutReplies
  pub planes : Option Slot → List ℕ × List ℕ → List ℕ × List ℕ
  pub mean : Kernel.Replies ℕ
  pub alpha : fl.F
  pub percent_1 : ℕ → ℕ
  pub percent_99 : ℕ → ℕ
  pub min_idx : ℕ → ℕ
  pub max_idx : ℕ → ℕ

-- Whether a buffer has `n` items.
abbrev pub has_room : {A : Type 0} → ℕ → List A → Bool
has_room n xs = leb n (length xs)

-- `memcpy` of the first `n` items: `none` past an end of either buffer.
abbrev pub copied : ℕ → List ℕ → List ℕ → Option (List ℕ)
copied n src dst =
    if has_room n src && has_room n dst then some (take n src ++ drop n dst) else none

-- `Filter::Mean_NV12` on the Y plane: what OpenCL made of an empty plane replaces it, the status is
-- not looked at.
unfoldable pub mean_nv12 : Kernel.Replies ℕ → FilterCl → List ℕ → ℕ → Option (List ℕ)
mean_nv12 r cl yuv y_size =
    let (status, temp_y) = process_mean r cl (replicate y_size 0) in copied y_size temp_y yuv

-- `Filter::Bilateral_NV12`, which does the same with the other kernel.
unfoldable pub bilateral_nv12 : Kernel.Replies ℕ → FilterCl → List ℕ → ℕ → Option (List ℕ)
bilateral_nv12 r cl yuv y_size =
    let (status, temp_y) = process_bilateral r cl (replicate y_size 0) in copied y_size temp_y yuv

-- `Filter::Median_16U` of data that is not NULL.
unfoldable pub median_16u : (List ℕ → List ℕ) → List ℕ → ℕ → ℕ → ℕ → Option (Bool × List ℕ)
median_16u median_blur pixels width height ksize =
    let blurred = (do
      pixels' ← copied (width * height) (median_blur (take (width * height) pixels)) pixels
      some (true, pixels')) in
    if width == 0 || height == 0 || ksize % 2 == 0 then some (false, pixels) else blurred

-- The table that the two colour functions take: NULL for the two that need none.
unfoldable pub table_for : ℤ → List Lut → Outcome (Option Lut)
table_for (negsuc k) luts = get_lut (negsuc k) luts
table_for (pos pseudo) luts =
    if not (pseudo == pseudo_number black_hot) && not (pseudo == pseudo_number white_hot)
    then get_lut (pos pseudo) luts
    else done none

abbrev pub lut_size : Option Lut → Option ℕ
lut_size none = none
lut_size (some l) = some l.size

module _ {fl : Floats} (r : FrameReplies fl) (width height : ℕ) where
  -- `Pseudo::operator()`: `Pseudo_Isotherms_CL` or `Pseudo_NV12_CL`, whose failures are only logged.
  -- A negative mode has no table, so that the mode is not read again.
  unfoldable pub pseudo_of : List ℕ → Picture fl → Option (Picture fl)
  unfolding table_for
  pseudo_of input p = do
    mapper ← update_range fl r.alpha r.percent_1 r.percent_99 input width height p.mapper
    lut ← elim (table_for p.usr.pseudo p.luts) [ done lut ↦ some lut | out_of_range ↦ none ]
    let ran =
        if p.usr.isothermal
        then process_isotherms r.run r.lut p.pseudo_cl p.lut_buffers (lut_size lut)
        else process_nv12 r.run r.lut p.pseudo_cl p.lut_buffers (pos_part p.usr.pseudo)
            (lut_size lut)
    let (y, uv) = r.planes ran.drawn (p.y, p.uv)
    let q : Picture fl = record p { mapper = mapper; lut_buffers = ran.buffers; y = y; uv = uv }
    if has_room (width * height) p.y && has_room (width * height / 2) p.uv then some q else none

  -- The gas difference and its median, in `g_diff_result`: whether the difference succeeded.
  unfoldable pub diff_of : Picture fl → Option (Bool × Picture fl)
  unfolding median_16u
  diff_of p = do
    (ok, out, kept) ←
        process_raw_stats_cv_vague r.cv r.min_idx r.max_idx r.diff p.diff_cl p.algo_in p.last_frame
          width height
    result ← copied (width * height) out p.g_diff_result
    let smoothed : Option (Bool × Picture fl) = (do
      (changed, blurred) ← median_16u r.median_blur result width height 3
      some (true, record p { g_diff_result = blurred; last_frame = kept }))
    if not ok
        then some (false, record p { g_diff_result = result; last_frame = kept })
        else smoothed

  -- The frame from the colours on.
  unfoldable pub paint : List ℕ → Picture fl → Option (ℤ × Picture fl)
  unfolding pseudo_of mean_nv12
  paint input p = do
    q ← pseudo_of input p
    y ← if q.usr.mean_filter then mean_nv12 r.mean q.filter_cl q.y (width * height) else some q.y
    some (pos 0, record q { y = y; locked = false })

  -- `Process_One_Frame`: `none` where it would read or write out of range. OpenCL is given the frame,
  -- the temperatures and the planes as buffers of the whole picture.
  unfoldable pub process_one_frame : Picture fl → Option (ℤ × Picture fl)
  unfolding diff_of paint
  process_one_frame p =
      let measured = record p {
        locked = true;
        shm_out_float = (tmcl_process r.tm p.tm_cl p.shm_out_float).1;
      } in
      let plain = paint p.algo_in measured in
      let gas = (do
        (ok, q) ← diff_of measured
        if not ok then some (negsuc 0, q) else paint q.g_diff_result q) in
      let painted = if p.usr.gas_enhancement_software then gas else plain in
      if has_room (width * height) p.algo_in && has_room (width * height) p.shm_out_float
      then painted
      else none
