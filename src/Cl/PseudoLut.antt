-- ===== src/Cl/PseudoLut.antt =====
-- src/config/cl/pseudo_cl.c: `PseudoCL_ProcessNV12` and `PseudoCL_ProcessIsotherms`, with the buffers
-- of the look-up table, which are created anew when the table's size changes.
use pre.Cl.Pseudo.{PseudoCl}
use pre.Cl.{
  Slot, kernel_black_hot, kernel_white_hot, kernel_color_map, kernel_isotherms, d_lut_y, d_lut_u,
  d_lut_v, Event, created, released, Init,
}
use pre.Prelude.{
  ◌==◌, if◌then◌else◌, ℕ, ◌+◌, ◌*◌, ◌/◌, Bool, true, false, not, ◌&&◌, ◌||◌, Option, none, some,
  List, [], ◌∷◌, ◌++◌,
}
use pre.Prelude.Int.{ℤ, pos, negsuc}

-- `d_lut_y`, `d_lut_u` and `d_lut_v`: NULL, or a buffer of that many bytes.
pub record LutBuffers : Type 0 where
  pub y : Option ℕ
  pub u : Option ℕ
  pub v : Option ℕ

-- Whether the calls on the three buffers succeed: the creations and the writes.
pub record LutReplies : Type 0 where
  pub y_ok : Bool
  pub u_ok : Bool
  pub v_ok : Bool
  pub write_y : Bool
  pub write_u : Bool
  pub write_v : Bool

abbrev pub dropped : Option ℕ → Slot → List Event
dropped (some n) s = released s ∷ []
dropped none s = []

abbrev pub no_buffers : LutBuffers
no_buffers = record { y = none; u = none; v = none }

abbrev pub drop_all_buffers : LutBuffers → List Event
drop_all_buffers b = dropped b.y d_lut_y ++ dropped b.u d_lut_u ++ dropped b.v d_lut_v

-- The label `cleanup_lut_v` and those below it.
abbrev pub cleanup_lut_v : LutBuffers → List Event
cleanup_lut_v b = dropped b.v d_lut_v ++ dropped b.u d_lut_u ++ dropped b.y d_lut_y

-- Buffers of `n` bytes in place of those before.
unfoldable pub recreate : LutReplies → ℕ → LutBuffers → Init LutBuffers
recreate r n b =
    if not y_ok
    then (false, no_buffers, drop_all_buffers b)
    else if not u_ok
    then (false, no_buffers, drop_all_buffers b ++ created d_lut_y ∷ released d_lut_y ∷ [])
    else if not v_ok
    then (
      false,
      no_buffers,
      drop_all_buffers b
          ++ created d_lut_y ∷ created d_lut_u ∷ released d_lut_u ∷ released d_lut_y ∷ [],
    )
    else (
      true,
      record { y = some n; u = some n; v = some n },
      drop_all_buffers b ++ created d_lut_y ∷ created d_lut_u ∷ created d_lut_v ∷ [],
    )
  where
    open r use {y_ok, u_ok, v_ok}

-- `current_lut_size`
abbrev pub size_of : Option ℕ → ℕ
size_of (some n) = n
size_of none = 0

-- The table of `n` entries is written, to new buffers where the size is another.
unfoldable pub load_lut : LutReplies → ℕ → LutBuffers → Init LutBuffers
unfolding recreate
load_lut r n b =
    let (ok, b', log) = if size_of b.y == n then (true, b, []) else recreate r n b in
    if not ok
    then (false, b', log)
    else if not write_y
    then (false, no_buffers, log ++ cleanup_lut_v b')
    else if not write_u
    then (false, no_buffers, log ++ cleanup_lut_v b')
    else if not write_v
    then (false, no_buffers, log ++ cleanup_lut_v b')
    else (true, b', log)
  where
    open r use {write_y, write_u, write_v}

-- `PSEUDO_WHITE_HOT` and `PSEUDO_BLACK_HOT`
abbrev pub white_hot : ℕ
white_hot = 8

abbrev pub black_hot : ℕ
black_hot = 9

-- The kernel that a kind of picture takes, where it is there, and whether it reads the table.
unfoldable pub select_kernel : PseudoCl → ℕ → Option ℕ → Option Slot
select_kernel cl pseudo_type lut =
    if pseudo_type == black_hot
    then (if cl.has_black_hot then some kernel_black_hot else none)
    else if pseudo_type == white_hot
    then (if cl.has_white_hot then some kernel_white_hot else none)
    else chosen lut
  where
    chosen : Option ℕ → Option Slot
    chosen none = none
    chosen (some n) = if cl.has_color_map then some kernel_color_map else none

-- Whether the calls around the table succeed: the frame's write, the writes of the temperatures and
-- the colours (isotherms only), the arguments, the kernel and the reads of the picture.
pub record RunReplies : Type 0 where
  pub write_input : Bool
  pub write_temps : Bool
  pub write_uv_maps : Bool
  pub args : Bool
  pub kernel : Bool
  pub read : Bool

-- What a run returns: the status, the buffers, the calls on them, and the kernel whose picture was
-- read.
pub record Run : Type 0 where
  pub status : ℤ
  pub buffers : LutBuffers
  pub calls : List Event
  pub drawn : Option Slot

-- The run's end, from the arguments on.
unfoldable pub draw : RunReplies → Option Slot → LutBuffers → List Event → Run
draw r active b log =
    if args && kernel && read
    then record { status = pos 0; buffers = b; calls = log; drawn = active }
    else record { status = negsuc 0; buffers = b; calls = log; drawn = none }
  where
    open r use {args, kernel, read}

abbrev pub failed : LutBuffers → List Event → Run
failed b log = record { status = negsuc 0; buffers = b; calls = log; drawn = none }

-- The table is loaded for the coloured kinds, where there is one.
abbrev pub load_for : LutReplies → ℕ → Option ℕ → LutBuffers → Init LutBuffers
load_for l pseudo_type none b = (true, b, [])
load_for l pseudo_type (some n) b =
    if pseudo_type == black_hot || pseudo_type == white_hot then (true, b, []) else load_lut l n b

-- `active_kernel`, which may be NULL.
unfoldable pub run_active : RunReplies → Option Slot → LutBuffers → List Event → Run
unfolding draw
run_active r none b log = failed b log
run_active r (some k) b log = draw r (some k) b log

-- `PseudoCL_ProcessNV12`; `lut` is the size of the table, where the pointer is not NULL.
unfoldable pub process_nv12 : RunReplies → LutReplies → PseudoCl → LutBuffers → ℕ → Option ℕ → Run
unfolding run_active select_kernel
process_nv12 r l cl b pseudo_type lut =
    if not cl.initialized
    then failed b []
    else if not r.write_input
    then failed b []
    else let (ok, b', log) = load_for l pseudo_type lut b in
      if not ok then failed b' log else run_active r (select_kernel cl pseudo_type lut) b' log

abbrev pub load_any : LutReplies → Option ℕ → LutBuffers → Init LutBuffers
load_any l none b = (true, b, [])
load_any l (some n) b = load_lut l n b

-- `PseudoCL_ProcessIsotherms`
unfoldable pub process_isotherms : RunReplies → LutReplies → PseudoCl → LutBuffers → Option ℕ → Run
unfolding draw
process_isotherms r l cl b lut =
    if not cl.initialized
    then failed b []
    else if not r.write_input
    then failed b []
    else let (ok, b', log) = load_any l lut b in
      if not ok
      then failed b' log
      else if not r.write_temps
      then failed b' log
      else if not r.write_uv_maps
      then failed b' log
      else draw r (some kernel_isotherms) b' log

-- The work size of a side of the picture, in groups of 16.
unfoldable pub global_work_size : ℕ → ℕ
global_work_size width = (width + 15) / 16 * 16
