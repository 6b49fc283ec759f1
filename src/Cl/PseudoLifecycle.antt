-- ===== src/Cl/PseudoLifecycle.antt =====
-- What `PseudoCL_Init` leaves live, whatever OpenCL answers, and `PseudoCL_Cleanup` after it.
use pre.Cl.Pseudo.{
  PseudoCl, Replies, pseudo_cl_buffers, pseudo_cl_built, pseudo_cl_init, pseudo_cl_cleanup,
}
use pre.Cl.Lifecycle.{set_up-live}
use pre.Cl.PseudoBuffers.{IsFresh, with_kernels, pseudo_cl_buffers-live}
use pre.Prelude.{
  if◌then◌else◌, ◌≡◌, refl, sym, subst, Bool, true, false, not, ◌&&◌, some, [], ◌∷◌, ◌++◌, arith,
}
use pre.Cl.{
  Slot, context, queue, program, kernel_black_hot, kernel_white_hot, kernel_color_map,
  kernel_isotherms, created, live, made, Init, set_up, all_made,
}

if_not-true : {A : Type 0} (b : Bool) (x y : A) → b ≡ true → (if not b then x else y) ≡ y
if_not-true b x y h = ground arith

-- With the last kernel, `pseudo_cl_built` goes on to the buffers.
pseudo_cl_built_lem :
    (r : Replies) (cl : PseudoCl)
    → r.isotherms_ok ≡ true
    → let rest = pseudo_cl_buffers r (with_kernels r cl) in
      pseudo_cl_built r (record cl { base = all_made }) ≡ (
        rest.0,
        rest.1,
        (made r.black_hot_ok kernel_black_hot
              ++ made r.white_hot_ok kernel_white_hot
              ++ made r.color_map_ok kernel_color_map
              ++ made r.isotherms_ok kernel_isotherms)
            ++ rest.2,
      )
unfolding pseudo_cl_built
pseudo_cl_built_lem r cl h = if_not-true _ _ _ h

pseudo_cl_built-live :
    (r : Replies) (cl : PseudoCl) (s : Slot)
    → IsFresh cl
    → r.isotherms_ok ≡ true
    → live s 0 (
        created context
          ∷ created queue
          ∷ created program
          ∷ (pseudo_cl_built r (record cl { base = all_made })).2
        ++ (pseudo_cl_cleanup (pseudo_cl_built r (record cl { base = all_made })).1).1)
      ≡ some 0
pseudo_cl_built-live r cl s fresh h =
    subst
      (λ x.
        live s 0
          (created context ∷ created queue ∷ created program ∷ x.2 ++ (pseudo_cl_cleanup x.1).1)
        ≡ some 0)
      (sym (pseudo_cl_built_lem r cl h)) (pseudo_cl_buffers-live r cl s fresh)

unused-no_calls : (cl : PseudoCl) → cl.initialized ≡ false → (pseudo_cl_cleanup cl).1 ≡ []
unfolding pseudo_cl_cleanup
unused-no_calls cl h = ground arith

-- Clearing the flag after a failure changes nothing of what the clean-up releases.
clear_flag-live :
    (s : Slot) (b : Bool) (x : Init PseudoCl)
    → (x.0 ≡ false → x.1.initialized ≡ false)
    → live s 0 (x.2 ++ (pseudo_cl_cleanup x.1).1) ≡ some 0
    → let y = if not x.0 && b then (x.0, record (x.1) { initialized = false }, x.2) else x in
      live s 0 (y.2 ++ (pseudo_cl_cleanup y.1).1) ≡ some 0
unfolding pseudo_cl_cleanup
clear_flag-live s b (true, cl, log) f h = h
clear_flag-live s false (false, cl, log) f h = h
clear_flag-live s true (false, cl, log) f h =
    subst (λ l. live s 0 (log ++ l) ≡ some 0) (unused-no_calls cl (f refl)) h

failed-not_initialized :
    (r : Replies) (cl : PseudoCl)
    → IsFresh cl
    → let x =
        set_up r.setup cl.base
          (λ b. record cl { base = b })
          (pseudo_cl_built r (record cl { base = all_made })) in
      x.0 ≡ false → x.1.initialized ≡ false
unfolding set_up pseudo_cl_built pseudo_cl_buffers
failed-not_initialized r cl fresh h = ground arith

-- From a fresh struct, `PseudoCL_Init` and then `PseudoCL_Cleanup` release nothing that is not live
-- and leave nothing live, where the last of the four kernels, the only one whose status is looked at,
-- is created; whichever of the other three and of the buffers fail.
pub pseudo_cl_lifecycle :
    (r : Replies) (cl : PseudoCl) (s : Slot)
    → IsFresh cl
    → r.isotherms_ok ≡ true
    → live s 0 ((pseudo_cl_init r cl).2 ++ (pseudo_cl_cleanup (pseudo_cl_init r cl).1).1) ≡ some 0
unfolding pseudo_cl_init
pseudo_cl_lifecycle r cl s fresh h = clear_flag-live s _ _ (failed-not_initialized r cl fresh) (
    set_up-live r.setup cl.base (λ b. record cl { base = b }) _ (λ c. (pseudo_cl_cleanup c).1) s
      (λ b. unused-no_calls (record cl { base = b }) fresh.not_initialized)
      (pseudo_cl_built-live r cl s fresh h))
