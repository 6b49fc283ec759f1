-- ===== src/Cl/PseudoLutLaws.antt =====
-- What the runs of the colour mapping keep of the look-up table's buffers.
use pre.Cl.PseudoLut.{
  LutBuffers, LutReplies, recreate, load_lut, white_hot, black_hot, select_kernel, RunReplies, Run,
  draw, load_for, run_active, process_nv12, load_any, process_isotherms, global_work_size,
}
use pre.Cl.{
  Slot, kernel_black_hot, kernel_white_hot, kernel_color_map, kernel_isotherms, d_lut_y, d_lut_u,
  d_lut_v, Event, live, Init,
}
use pre.Cl.Pseudo.{PseudoCl}
use pre.Prelude.{
  ◌==◌, if◌then◌else◌, if_either, ℕ, ◌+◌, ◌%◌, ◌≤◌, ◌<◌, ◌≡◌, refl, ◌∙◌, true, not, ◌&&◌, ◌||◌,
  Option, none, some, List, [], arith,
}
use pre.Prelude.Int.{pos}

-- The three buffers are there together, with one size.
pub record IsConsistent (b : LutBuffers) : Type 0 where
  pub same_u : b.u ≡ b.y
  pub same_v : b.v ≡ b.y

abbrev pub held : Option ℕ → ℕ
held none = 0
held (some n) = 1

-- The calls `log` release only what is live, from what the first buffers hold to what the second do.
pub record Accounts (b : LutBuffers) (log : List Event) (b' : LutBuffers) : Type 0 where
  pub of_y : live d_lut_y (held b.y) log ≡ some (held b'.y)
  pub of_u : live d_lut_u (held b.u) log ≡ some (held b'.u)
  pub of_v : live d_lut_v (held b.v) log ≡ some (held b'.v)

load_lut-IsConsistent :
    (r : LutReplies) (n : ℕ) (b : LutBuffers) → IsConsistent b → IsConsistent ((load_lut r n b).1)
unfolding load_lut recreate
load_lut-IsConsistent r n b h = record { same_u = ground arith; same_v = ground arith }

load_lut-size :
    (r : LutReplies) (n : ℕ) (b : LutBuffers)
    → 0 < n
    → (load_lut r n b).0 ≡ true
    → (load_lut r n b).1.y ≡ some n
unfolding load_lut recreate
load_lut-size r n b positive ok = ground arith

load_lut-Accounts :
    (r : LutReplies) (n : ℕ) (b : LutBuffers) → Accounts b ((load_lut r n b).2) ((load_lut r n b).1)
unfolding load_lut recreate
load_lut-Accounts r n b = record { of_y = ground arith; of_u = ground arith; of_v = ground arith }

-- What a run may do to the buffers: nothing, or load a table.
data IsTouched (l : LutReplies) (b : LutBuffers) : LutBuffers → List Event → Type 0 where
  untouched : IsTouched l b b []
  loaded : (n : ℕ) → IsTouched l b ((load_lut l n b).1) ((load_lut l n b).2)

IsTouched-keeps :
    (l : LutReplies) (b b' : LutBuffers) (log : List Event)
    → IsConsistent b
    → IsTouched l b b' log
    → IsConsistent b' × Accounts b log b'
IsTouched-keeps l b b' log h untouched = (h, record { of_y = refl; of_u = refl; of_v = refl })
IsTouched-keeps l b b' log h (loaded n) = (load_lut-IsConsistent l n b h, load_lut-Accounts l n b)

load_for-IsTouched :
    (l : LutReplies) (pseudo_type : ℕ) (lut : Option ℕ) (b : LutBuffers)
    → IsTouched l b ((load_for l pseudo_type lut b).1) ((load_for l pseudo_type lut b).2)
load_for-IsTouched l pseudo_type none b = untouched
load_for-IsTouched l pseudo_type (some n) b =
    if_either {A = Init LutBuffers} (λ x. IsTouched l b x.1 x.2)
      (pseudo_type == black_hot || pseudo_type == white_hot) _ _ untouched (loaded n)

load_any-IsTouched :
    (l : LutReplies) (lut : Option ℕ) (b : LutBuffers)
    → IsTouched l b ((load_any l lut b).1) ((load_any l lut b).2)
load_any-IsTouched l none b = untouched
load_any-IsTouched l (some n) b = loaded n

abbrev IsTouchedBy : LutReplies → LutBuffers → Run → Type 0
IsTouchedBy l b run = IsTouched l b run.buffers run.calls

draw-IsTouched :
    (l : LutReplies) (b : LutBuffers) (r : RunReplies) (k : Option Slot) (b' : LutBuffers)
    (log : List Event)
    → IsTouched l b b' log
    → IsTouchedBy l b (draw r k b' log)
unfolding draw
draw-IsTouched l b r k b' log h = if_either (IsTouchedBy l b) (r.args && r.kernel && r.read) _ _ h h

run_active-IsTouched :
    (l : LutReplies) (b : LutBuffers) (r : RunReplies) (k : Option Slot) (b' : LutBuffers)
    (log : List Event)
    → IsTouched l b b' log
    → IsTouchedBy l b (run_active r k b' log)
unfolding run_active
run_active-IsTouched l b r none b' log h = h
run_active-IsTouched l b r (some k) b' log h = draw-IsTouched l b r (some k) b' log h

process_nv12-IsTouched :
    (r : RunReplies) (l : LutReplies) (cl : PseudoCl) (b : LutBuffers) (pseudo_type : ℕ)
    (lut : Option ℕ)
    → IsTouchedBy l b (process_nv12 r l cl b pseudo_type lut)
unfolding process_nv12
process_nv12-IsTouched r l cl b pseudo_type lut = if_either P (not cl.initialized) _ _ untouched (
    if_either P (not r.write_input) _ _ untouched (
      if_either P (not (load_for l pseudo_type lut b).0) _ _ loads
        (run_active-IsTouched l b r (select_kernel cl pseudo_type lut) _ _ loads)))
  where
    P : Run → Type 0
    P = IsTouchedBy l b

    loads : IsTouched l b ((load_for l pseudo_type lut b).1) ((load_for l pseudo_type lut b).2)
    loads = load_for-IsTouched l pseudo_type lut b

process_isotherms-IsTouched :
    (r : RunReplies) (l : LutReplies) (cl : PseudoCl) (b : LutBuffers) (lut : Option ℕ)
    → IsTouchedBy l b (process_isotherms r l cl b lut)
unfolding process_isotherms
process_isotherms-IsTouched r l cl b lut = if_either P (not cl.initialized) _ _ untouched (
    if_either P (not r.write_input) _ _ untouched (
      if_either P (not (load_any l lut b).0) _ _ loads (
        if_either P (not r.write_temps) _ _ loads (
          if_either P (not r.write_uv_maps) _ _ loads
            (draw-IsTouched l b r (some kernel_isotherms) _ _ loads)))))
  where
    P : Run → Type 0
    P = IsTouchedBy l b

    loads : IsTouched l b ((load_any l lut b).1) ((load_any l lut b).2)
    loads = load_any-IsTouched l lut b

-- A run of `PseudoCL_ProcessNV12`, failed or not, leaves the three buffers there together or not at
-- all, and releases and creates exactly what takes the buffers before to those after.
pub process_nv12_buffers :
    (r : RunReplies) (l : LutReplies) (cl : PseudoCl) (b : LutBuffers) (pseudo_type : ℕ)
    (lut : Option ℕ)
    → IsConsistent b
    → IsConsistent ((process_nv12 r l cl b pseudo_type lut).buffers)
      × Accounts b
          ((process_nv12 r l cl b pseudo_type lut).calls)
          ((process_nv12 r l cl b pseudo_type lut).buffers)
process_nv12_buffers r l cl b pseudo_type lut h =
    IsTouched-keeps l b _ _ h (process_nv12-IsTouched r l cl b pseudo_type lut)

process_nv12_size :
    (r : RunReplies) (l : LutReplies) (cl : PseudoCl) (b : LutBuffers) (pseudo_type n : ℕ)
    → 0 < n
    → (process_nv12 r l cl b pseudo_type (some n)).status ≡ pos 0
    → (process_nv12 r l cl b pseudo_type (some n)).drawn ≡ some kernel_color_map
    → (process_nv12 r l cl b pseudo_type (some n)).buffers.y ≡ some n
unfolding process_nv12 run_active draw select_kernel
process_nv12_size r l cl b pseudo_type n positive done coloured =
    ground (arith, load_lut-size l n b positive)

-- Where a run of `PseudoCL_ProcessNV12` succeeds, the picture was drawn by the kernel of its kind, and
-- a coloured one from buffers of the size of the table given, which is not empty.
pub process_nv12_success :
    (r : RunReplies) (l : LutReplies) (cl : PseudoCl) (b : LutBuffers) (pseudo_type n : ℕ)
    → 0 < n
    → IsConsistent b
    → (process_nv12 r l cl b pseudo_type (some n)).status ≡ pos 0
    → ((process_nv12 r l cl b pseudo_type (some n)).drawn ≡ (
        if pseudo_type == black_hot
        then some kernel_black_hot
        else if pseudo_type == white_hot
        then some kernel_white_hot
        else some kernel_color_map))
      × ((process_nv12 r l cl b pseudo_type (some n)).drawn ≡ some kernel_color_map
          → ((process_nv12 r l cl b pseudo_type (some n)).buffers.y ≡ some n)
            × ((process_nv12 r l cl b pseudo_type (some n)).buffers.u ≡ some n)
            × ((process_nv12 r l cl b pseudo_type (some n)).buffers.v ≡ some n))
unfolding process_nv12 run_active draw select_kernel
process_nv12_success r l cl b pseudo_type n positive h done = (
  ground arith,
  λ coloured.
      let kept = (process_nv12_buffers r l cl b pseudo_type (some n) h).0 in
      let y = process_nv12_size r l cl b pseudo_type n positive done coloured in
      (y, kept.same_u ∙ y, kept.same_v ∙ y),
)

-- A run of `PseudoCL_ProcessIsotherms`, failed or not, leaves the three buffers there together or not
-- at all, and releases and creates exactly what takes the buffers before to those after.
pub process_isotherms_buffers :
    (r : RunReplies) (l : LutReplies) (cl : PseudoCl) (b : LutBuffers) (lut : Option ℕ)
    → IsConsistent b
    → IsConsistent ((process_isotherms r l cl b lut).buffers)
      × Accounts b
          ((process_isotherms r l cl b lut).calls)
          ((process_isotherms r l cl b lut).buffers)
process_isotherms_buffers r l cl b lut h =
    IsTouched-keeps l b _ _ h (process_isotherms-IsTouched r l cl b lut)

-- The work size of a side is the least multiple of 16 that covers it.
pub global_work_size_lem :
    (width : ℕ)
    → (width ≤ global_work_size width)
      × (global_work_size width < width + 16)
      × (global_work_size width % 16 ≡ 0)
unfolding global_work_size
global_work_size_lem width = (omega arith, omega arith, omega arith)
