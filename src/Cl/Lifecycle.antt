-- ===== src/Cl/Lifecycle.antt =====
-- What the wrappers leave live after a set-up, whatever OpenCL answers, and its clean-up.
use pre.Cl.Filter.{FilterCl, filter_cl_built, filter_cl_init, filter_cl_cleanup}
use pre.Cl.{
  Slot, context, queue, program, kernel_bilateral_filter, number, Event, created, live, Base, Setup,
  Init, set_up, all_made,
}
use pre.Cl.Tm.{Tmcl, tmcl_built, tmcl_init, tmcl_cleanup}
use pre.Cl.Diff.{DiffCl, diff_cl_built, diff_cl_init, diff_cl_cleanup}
use pre.Cl.Tm
use pre.Cl.Diff
use pre.Cl.Filter
use pre.Prelude.{◌==◌, ◌≡◌, ◌⊎◌, true, false, some, List, [], ◌∷◌, ◌++◌, arith}

-- What a wrapper releases after a failed set-up adds up, whatever the set-up reached, where the rest
-- of the set-up adds up and the clean-up of the uninitialised struct makes no call.
pub set_up-live :
    {C : Type 0} (r : Setup) (cl : Base) (with_base : Base → C) (built : Init C)
    (cleanup : C → List Event) (s : Slot)
    → ((b : Base) → cleanup (with_base b) ≡ [])
    → live s 0 (created context ∷ created queue ∷ created program ∷ built.2 ++ cleanup (built.1))
      ≡ some 0
    → live s 0 ((set_up r cl with_base built).2 ++ cleanup (set_up r cl with_base built).1) ≡ some 0
unfolding set_up
set_up-live r cl with_base built cleanup context none_made h = grind arith
set_up-live r cl with_base built cleanup queue none_made h = grind arith
set_up-live r cl with_base built cleanup program none_made h = grind arith
set_up-live r cl with_base built cleanup _ none_made h = grind arith

-- The rest of each set-up adds up, after a context, a queue and a program were created.
tmcl_built-live :
    (r : Tm.Replies) (cl : Tmcl) (s : Slot)
    → cl.initialized ≡ false
    → (r.kernel_tm_ok ≡ false) ⊎ (r.kernel_tm_exp_ok ≡ true)
    → live s 0 (
        created context
          ∷ created queue
          ∷ created program
          ∷ (tmcl_built r (record cl { base = all_made })).2
        ++ (tmcl_cleanup (tmcl_built r (record cl { base = all_made })).1).1)
      ≡ some 0
unfolding tmcl_built tmcl_cleanup
tmcl_built-live r cl context fresh h = ground arith
tmcl_built-live r cl _ fresh h = ground arith

diff_cl_built-live :
    (r : Diff.Replies) (cl : DiffCl) (s : Slot)
    → cl.initialized ≡ false
    → (r.kernel_diff_ok ≡ false) ⊎ (r.malloc_ok ≡ true)
    → live s 0 (
        created context
          ∷ created queue
          ∷ created program
          ∷ (diff_cl_built r (record cl { base = all_made })).2
        ++ (diff_cl_cleanup (diff_cl_built r (record cl { base = all_made })).1).1)
      ≡ some 0
unfolding diff_cl_built diff_cl_cleanup
diff_cl_built-live r cl context fresh h = ground arith
diff_cl_built-live r cl _ fresh h = ground arith

filter_cl_built-live :
    (r : Filter.Replies) (cl : FilterCl) (s : Slot)
    → cl.initialized ≡ false
    → (r.mean_ok ≡ false) ⊎ (r.bilateral_ok ≡ true)
    → (number s == number kernel_bilateral_filter) ≡ false
    → live s 0 (
        created context
          ∷ created queue
          ∷ created program
          ∷ (filter_cl_built r (record cl { base = all_made })).2
        ++ (filter_cl_cleanup (filter_cl_built r (record cl { base = all_made })).1).1)
      ≡ some 0
unfolding filter_cl_built filter_cl_cleanup
filter_cl_built-live r cl context fresh h other = ground arith
filter_cl_built-live r cl _ fresh h other = ground arith

-- From an uninitialised struct, `TMCL_Init` and then `TMCL_Cleanup` release nothing that is not live
-- and leave nothing live, unless the second kernel fails after the first one was made.
pub tmcl_lifecycle :
    (r : Tm.Replies) (cl : Tmcl) (s : Slot)
    → cl.initialized ≡ false
    → (r.kernel_tm_ok ≡ false) ⊎ (r.kernel_tm_exp_ok ≡ true)
    → live s 0 ((tmcl_init r cl).2 ++ (tmcl_cleanup (tmcl_init r cl).1).1) ≡ some 0
unfolding tmcl_init tmcl_cleanup
tmcl_lifecycle r cl s fresh h =
    set_up-live r.setup cl.base (λ b. record cl { base = b }) _ (λ c. (tmcl_cleanup c).1) s
      uninitialised (tmcl_built-live r cl s fresh h)
  where
    uninitialised : (b : Base) → (tmcl_cleanup (record cl { base = b })).1 ≡ []
    uninitialised b = ground arith

-- From an uninitialised struct, `DiffCL_Init` and then `DiffCL_Cleanup` release nothing that is not
-- live and leave nothing live, unless `malloc` fails after the kernel was made.
pub diff_cl_lifecycle :
    (r : Diff.Replies) (cl : DiffCl) (s : Slot)
    → cl.initialized ≡ false
    → (r.kernel_diff_ok ≡ false) ⊎ (r.malloc_ok ≡ true)
    → live s 0 ((diff_cl_init r cl).2 ++ (diff_cl_cleanup (diff_cl_init r cl).1).1) ≡ some 0
unfolding diff_cl_init diff_cl_cleanup
diff_cl_lifecycle r cl s fresh h =
    set_up-live r.setup cl.base (λ b. record cl { base = b }) _ (λ c. (diff_cl_cleanup c).1) s
      uninitialised (diff_cl_built-live r cl s fresh h)
  where
    uninitialised : (b : Base) → (diff_cl_cleanup (record cl { base = b })).1 ≡ []
    uninitialised b = ground arith

-- From an uninitialised struct, `FilterCL_Init` and then `FilterCL_Cleanup` release nothing that is
-- not live and, of what is not the bilateral kernel, leave nothing live, unless that kernel fails
-- after the first one was made.
pub filter_cl_lifecycle :
    (r : Filter.Replies) (cl : FilterCl) (s : Slot)
    → cl.initialized ≡ false
    → (r.mean_ok ≡ false) ⊎ (r.bilateral_ok ≡ true)
    → (number s == number kernel_bilateral_filter) ≡ false
    → live s 0 ((filter_cl_init r cl).2 ++ (filter_cl_cleanup (filter_cl_init r cl).1).1) ≡ some 0
unfolding filter_cl_init filter_cl_cleanup
filter_cl_lifecycle r cl s fresh h other =
    set_up-live r.setup cl.base (λ b. record cl { base = b }) _ (λ c. (filter_cl_cleanup c).1) s
      uninitialised (filter_cl_built-live r cl s fresh h other)
  where
    uninitialised : (b : Base) → (filter_cl_cleanup (record cl { base = b })).1 ≡ []
    uninitialised b = ground arith

-- Where `FilterCL_Init` succeeds, `FilterCL_Cleanup` leaves the bilateral kernel live.
pub filter_cl_leak :
    (r : Filter.Replies) (cl : FilterCl)
    → (filter_cl_init r cl).0 ≡ true
    → live kernel_bilateral_filter 0
        ((filter_cl_init r cl).2 ++ (filter_cl_cleanup (filter_cl_init r cl).1).1)
      ≡ some 1
unfolding filter_cl_init filter_cl_cleanup
filter_cl_leak r cl h = ground arith
