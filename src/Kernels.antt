-- ===== src/Kernels.antt =====
-- The OpenCL kernels, src/config/cl/*.cl: what one work-item does to the buffers that it writes, and
-- a run of many work-items, one after another in any order. A work-item stands at a column and a row.
-- An access outside of a buffer is `none`.
pub mod Values
pub mod Bilateral
pub mod Pseudo
pub mod Order
pub mod Nv12
pub mod Laws
pub mod Isotherms
pub mod Hot
pub mod Mean
mod Tests
use pre.Prelude.{
  ltb, leb, if◌then◌else◌, ◌>>=◌, length, set, ℕ, ◌+◌, ◌*◌, ◌/◌, ◌&&◌, ◌||◌, Option, none, some,
  List, [], ◌∷◌,
}

-- A write into a buffer.
unfoldable pub put : {A : Type 0} → List A → ℕ → A → Option (List A)
put xs i v = if ltb i (length xs) then some (set xs i v) else none

-- A kernel that writes `output[idx]`, where the value it computes may need an access too.
unfoldable pub plane_item :
    {A : Type 0} → ℕ → ℕ → (ℕ → ℕ → Option A) → ℕ × ℕ → List A → Option (List A)
unfolding put
plane_item width height value (x, y) output =
    let written = (do v ← value x y; put output (y * width + x) v) in
    if leb width x || leb height y then some output else written

-- `y_out` and `uv_out`
pub record Planes : Type 0 where
  pub y_out : List ℕ
  pub uv_out : List ℕ

-- The two writes of `uv_out` at `uv_idx`, for the work-items of the first quarter.
unfoldable pub uv_item : ℕ → ℕ → (ℕ → ℕ → Option (ℕ × ℕ)) → ℕ × ℕ → List ℕ → Option (List ℕ)
unfolding put
uv_item width height value (x, y) uv_out =
    let written = (do
      (u, v) ← value x y
      with_u ← put uv_out (y * width + x * 2) u
      put with_u (y * width + x * 2 + 1) v) in
    if ltb x (width / 2) && ltb y (height / 2) then written else some uv_out

-- A kernel that writes an NV12 picture, with the value of `y_out` and those of `uv_out`.
unfoldable pub nv12_item :
    ℕ → ℕ → (ℕ → ℕ → Option ℕ) → (ℕ → ℕ → Option (ℕ × ℕ)) → ℕ × ℕ → Planes → Option Planes
nv12_item width height y_value uv_value (x, y) out =
    let written = (do
      v ← y_value x y
      y_out ← put out.y_out (y * width + x) v
      uv_out ← uv_item width height uv_value (x, y) out.uv_out
      some (record { y_out = y_out; uv_out = uv_out })) in
    if leb width x || leb height y then some out else written

-- The work-items of a run, in the order in which they take effect.
unfoldable pub run_items : {S : Type 0} → (ℕ × ℕ → S → Option S) → List (ℕ × ℕ) → S → Option S
run_items item [] out = some out
run_items item (p ∷ items) out = do out' ← item p out; run_items item items out'
