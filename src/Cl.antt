-- ===== src/Cl.antt =====
-- The OpenCL wrappers of src/config/cl: what each creates and releases, call by call. OpenCL itself
-- is not in the repository: whether each of its calls succeeds is an argument (the records named
-- `Replies`), and a creation that fails gives NULL, as OpenCL documents.
pub mod Kernel
pub mod Source
pub mod Tm
pub mod Diff
pub mod Filter
pub mod Pseudo
pub mod PseudoLut
pub mod Runs
pub mod Lifecycle
mod PseudoBuffers
pub mod PseudoLifecycle
pub mod PseudoLutLaws
pub mod Samples
mod Tests
use pre.Prelude.{
  ◌==◌, if◌then◌else◌, ℕ, ◌+◌, ◌-◌, Bool, true, false, not, ◌&&◌, ◌||◌, Option, none, some, List,
  [], ◌∷◌,
}

-- The fields of the wrappers' structs that hold a resource.
pub data Slot : Type 0 where
  context queue program : Slot
  kernel_tm kernel_tm_exp kernel_diff kernel_mean_filter kernel_bilateral_filter : Slot
  kernel_black_hot kernel_white_hot kernel_color_map kernel_isotherms : Slot
  d_input d_output d_current d_last last_frame : Slot
  d_y_out d_uv_out d_lut_y d_lut_u d_lut_v d_temps d_uv_maps : Slot

abbrev pub number : Slot → ℕ
number context = 0
number queue = 1
number program = 2
number kernel_tm = 3
number kernel_tm_exp = 4
number kernel_diff = 5
number kernel_mean_filter = 6
number kernel_bilateral_filter = 7
number kernel_black_hot = 8
number kernel_white_hot = 9
number kernel_color_map = 10
number kernel_isotherms = 11
number d_input = 12
number d_output = 13
number d_current = 14
number d_last = 15
number last_frame = 16
number d_y_out = 17
number d_uv_out = 18
number d_lut_y = 19
number d_lut_u = 20
number d_lut_v = 21
number d_temps = 22
number d_uv_maps = 23

-- One call that creates or releases the resource of a slot.
pub data Event : Type 0 where
  created released : Slot → Event

-- How many resources a slot has live after some calls, from `n` before them; `none` where one is
-- released that is not live.
abbrev pub live : Slot → ℕ → List Event → Option ℕ
live s n [] = some n
live s n (created t ∷ log) = live s (if number s == number t then n + 1 else n) log
live s n (released t ∷ log) =
    let rest = live s (if number s == number t then n - 1 else n) log in
    if number s == number t && n == 0 then none else rest

-- The calls made where a creation succeeds or fails, and where a handle is released if not NULL.
abbrev pub made : Bool → Slot → List Event
made true s = created s ∷ []
made false s = []

abbrev pub freed : Bool → Slot → List Event
freed true s = released s ∷ []
freed false s = []

-- The handles that every wrapper has: which are not NULL.
pub record Base : Type 0 where
  pub has_context : Bool
  pub has_queue : Bool
  pub has_program : Bool

-- Whether each call up to `clBuildProgram` succeeds, in the order of the calls.
pub record Setup : Type 0 where
  pub platform : Bool
  pub device : Bool
  pub context_ok : Bool
  pub queue_ok : Bool
  pub source : Bool
  pub program_ok : Bool
  pub build : Bool

-- What a set-up function returns, the struct that it leaves, and the calls that it made.
abbrev pub Init : Type 0 → Type 0
Init C = Bool × C × List Event

-- The labels at which a failed set-up goes on.
abbrev pub cleanup_context : List Event
cleanup_context = released context ∷ []

abbrev pub cleanup_queue : List Event
cleanup_queue = released queue ∷ cleanup_context

abbrev pub cleanup_program : List Event
cleanup_program = released program ∷ cleanup_queue

-- The part that the four set-up functions share, up to a built program; `built` is the rest of the
-- function, and `with_base` the struct with its first three handles replaced.
unfoldable pub set_up : {C : Type 0} → Setup → Base → (Base → C) → Init C → Init C
set_up r cl with_base built =
    if not platform || not device
    then (false, with_base cl, [])
    else if not context_ok
    then (false, with_base (record cl { has_context = false }), [])
    else if not queue_ok
    then (
      false,
      with_base (record cl { has_context = true; has_queue = false }),
      created context ∷ cleanup_context,
    )
    else let cl' = record cl { has_context = true; has_queue = true } in
      if not source
      then (false, with_base cl', created context ∷ created queue ∷ cleanup_queue)
      else if not program_ok
      then (
        false,
        with_base (record cl' { has_program = false }),
        created context ∷ created queue ∷ cleanup_queue,
      )
      else if not build
      then (
        false,
        with_base (record cl' { has_program = true }),
        created context ∷ created queue ∷ created program ∷ cleanup_program,
      )
      else (built.0, built.1, created context ∷ created queue ∷ created program ∷ built.2)
  where
    open r use {platform, device, context_ok, queue_ok, source, program_ok, build}

-- The handles of a wrapper whose program is built.
abbrev pub all_made : Base
all_made = record { has_context = true; has_queue = true; has_program = true }
