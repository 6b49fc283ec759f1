-- ===== src/Cl/Tm.antt =====
-- src/config/cl/tm_cl.c: temperatures from raw pixels.
use pre.Cl.{
  context, queue, program, kernel_tm, kernel_tm_exp, d_input, d_output, Event, created, made, freed,
  Base, Setup, Init, cleanup_program, set_up, all_made,
}
use pre.Cl.Kernel.{run}
use pre.Cl.Kernel
use pre.Prelude.Int.{ℤ}
use pre.Prelude.{if◌then◌else◌, Bool, true, false, not, List, [], ◌∷◌, ◌++◌}

-- `TMCL`: which handles are not NULL, and the flag.
pub record Tmcl : Type 0 where
  pub base : Base
  pub has_kernel_tm : Bool
  pub has_kernel_tm_exp : Bool
  pub has_input : Bool
  pub has_output : Bool
  pub initialized : Bool

-- Whether each call of `TMCL_Init` succeeds, in the order of the calls.
pub record Replies : Type 0 where
  pub setup : Setup
  pub kernel_tm_ok : Bool
  pub kernel_tm_exp_ok : Bool
  pub input_ok : Bool
  pub output_ok : Bool

-- `TMCL_Init` from the first `clCreateKernel` on.
unfoldable pub tmcl_built : Replies → Tmcl → Init Tmcl
tmcl_built r cl =
    if not kernel_tm_ok
    then (false, record cl { has_kernel_tm = false }, cleanup_program)
    else if not kernel_tm_exp_ok
    then (
      false,
      record cl { has_kernel_tm = true; has_kernel_tm_exp = false },
      created kernel_tm ∷ cleanup_program,
    )
    else (
      true,
      record cl {
        has_kernel_tm = true;
        has_kernel_tm_exp = true;
        has_input = input_ok;
        has_output = output_ok;
        initialized = true;
      },
      created kernel_tm ∷ created kernel_tm_exp ∷ made input_ok d_input ++ made output_ok d_output,
    )
  where
    open r use {kernel_tm_ok, kernel_tm_exp_ok, input_ok, output_ok}

-- `TMCL_Init`
unfoldable pub tmcl_init : Replies → Tmcl → Init Tmcl
unfolding set_up tmcl_built
tmcl_init r cl =
    set_up r.setup cl.base (λ b. record cl { base = b })
      (tmcl_built r (record cl { base = all_made }))

-- `TMCL_Cleanup`
unfoldable pub tmcl_cleanup : Tmcl → Tmcl × List Event
tmcl_cleanup cl = if not cl.initialized then (cl, []) else (
  record cl { initialized = false },
  freed cl.has_input d_input
      ++ freed cl.has_output d_output
      ++ freed cl.has_kernel_tm kernel_tm
      ++ freed cl.has_kernel_tm_exp kernel_tm_exp
      ++ freed cl.base.has_program program
      ++ freed cl.base.has_queue queue
      ++ freed cl.base.has_context context,
)

-- `TMCL_Process` and `TMCL_Process_Exp`, which differ in the kernel and its arguments only.
unfoldable pub tmcl_process : {A : Type 0} → Kernel.Replies A → Tmcl → List A → ℤ × List A
unfolding run
tmcl_process r cl output = run r cl.initialized output

unfoldable pub tmcl_process_exp : {A : Type 0} → Kernel.Replies A → Tmcl → List A → ℤ × List A
unfolding run
tmcl_process_exp r cl output = run r cl.initialized output
