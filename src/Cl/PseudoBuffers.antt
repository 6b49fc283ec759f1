-- ===== src/Cl/PseudoBuffers.antt =====
-- What the kernels and the buffers of `PseudoCL_Init`, and `PseudoCL_Cleanup`, leave live.
use pre.Cl.Pseudo.{PseudoCl, Replies, pseudo_cl_buffers, pseudo_cl_cleanup}
use pre.Prelude.{ltb, leb, Bool-cases, ◌≡◌, inl, inr, true, false, some, ◌∷◌, ◌++◌, arith}
use pre.Cl.{
  Slot, context, queue, program, kernel_black_hot, kernel_white_hot, kernel_color_map,
  kernel_isotherms, d_input, d_lut_y, number, created, live, made, all_made,
}

-- No look-up table buffer is held, as after `memset`.
pub record IsFresh (cl : PseudoCl) : Type 0 where
  pub not_initialized : cl.initialized ≡ false
  pub no_y : cl.has_lut_y ≡ false
  pub no_u : cl.has_lut_u ≡ false
  pub no_v : cl.has_lut_v ≡ false

-- The struct once the kernels are there, in a context.
abbrev pub with_kernels : Replies → PseudoCl → PseudoCl
with_kernels r cl = record cl {
  base = all_made;
  has_black_hot = r.black_hot_ok;
  has_white_hot = r.white_hot_ok;
  has_color_map = r.color_map_ok;
  has_isotherms = r.isotherms_ok;
}

-- From the context to the end of the buffers, and the clean-up, nothing of a slot is left.
abbrev pub AddsUp : Replies → PseudoCl → Slot → Type 0
AddsUp r cl s =
    live s 0 (
      created context
        ∷ created queue
        ∷ created program
        ∷ ((made r.black_hot_ok kernel_black_hot
              ++ made r.white_hot_ok kernel_white_hot
              ++ made r.color_map_ok kernel_color_map
              ++ made r.isotherms_ok kernel_isotherms)
            ++ (pseudo_cl_buffers r cl).2)
      ++ (pseudo_cl_cleanup (pseudo_cl_buffers r cl).1).1)
    ≡ some 0

handles-add_up :
    (r : Replies) (cl : PseudoCl) (s : Slot)
    → IsFresh cl
    → ltb (number s) 8 ≡ true
    → AddsUp r (with_kernels r cl) s
unfolding pseudo_cl_buffers pseudo_cl_cleanup
handles-add_up r cl context fresh h = ground arith
handles-add_up r cl _ fresh h = ground arith

kernels-add_up :
    (r : Replies) (cl : PseudoCl) (s : Slot)
    → IsFresh cl
    → leb 8 (number s) ≡ true
    → ltb (number s) 12 ≡ true
    → AddsUp r (with_kernels r cl) s
unfolding pseudo_cl_buffers pseudo_cl_cleanup
kernels-add_up r cl kernel_black_hot fresh h k = ground arith
kernels-add_up r cl _ fresh h k = ground arith

buffers-add_up :
    (r : Replies) (cl : PseudoCl) (s : Slot)
    → IsFresh cl
    → leb 12 (number s) ≡ true
    → ltb (number s) 19 ≡ true
    → AddsUp r (with_kernels r cl) s
unfolding pseudo_cl_buffers pseudo_cl_cleanup
buffers-add_up r cl d_input fresh h k = ground arith
buffers-add_up r cl _ fresh h k = ground arith

lut_buffers-add_up :
    (r : Replies) (cl : PseudoCl) (s : Slot)
    → IsFresh cl
    → leb 19 (number s) ≡ true
    → AddsUp r (with_kernels r cl) s
unfolding pseudo_cl_buffers pseudo_cl_cleanup
lut_buffers-add_up r cl d_lut_y fresh h = ground arith
lut_buffers-add_up r cl _ fresh h = ground arith

pub pseudo_cl_buffers-live :
    (r : Replies) (cl : PseudoCl) (s : Slot) → IsFresh cl → AddsUp r (with_kernels r cl) s
pseudo_cl_buffers-live r cl s fresh = elim (Bool-cases (ltb (number s) 8)) [
  | inl h ↦ handles-add_up r cl s fresh h
  | inr h ↦ elim (Bool-cases (ltb (number s) 12)) [
    | inl k ↦ kernels-add_up r cl s fresh (ground arith) k
    | inr k ↦ elim (Bool-cases (ltb (number s) 19)) [
      | inl l ↦ buffers-add_up r cl s fresh (ground arith) l
      | inr l ↦ lut_buffers-add_up r cl s fresh (ground arith)
    ]
  ]
]
