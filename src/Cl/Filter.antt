-- ===== src/Cl/Filter.antt =====
-- src/config/cl/filter_cl.c: mean and bilateral filters.
use pre.Cl.{
  context, queue, program, kernel_mean_filter, kernel_bilateral_filter, d_input, d_output, Event,
  created, made, freed, Base, Setup, Init, cleanup_program, set_up, all_made,
}
use pre.Cl.Kernel.{run}
use pre.Cl.Kernel
use pre.Prelude.Int.{ℤ}
use pre.Prelude.{if◌then◌else◌, ℕ, Bool, true, false, not, List, [], ◌∷◌, ◌++◌}

-- `FilterCL`: which handles are not NULL, and the flag.
pub record FilterCl : Type 0 where
  pub base : Base
  pub has_kernel_mean_filter : Bool
  pub has_kernel_bilateral_filter : Bool
  pub has_input : Bool
  pub has_output : Bool
  pub initialized : Bool

-- Whether each call of `FilterCL_Init` succeeds, in the order of the calls.
pub record Replies : Type 0 where
  pub setup : Setup
  pub mean_ok : Bool
  pub bilateral_ok : Bool
  pub input_ok : Bool
  pub output_ok : Bool

-- `FilterCL_Init` from the first `clCreateKernel` on.
unfoldable pub filter_cl_built : Replies → FilterCl → Init FilterCl
filter_cl_built r cl =
    if not mean_ok
    then (false, record cl { has_kernel_mean_filter = false }, cleanup_program)
    else if not bilateral_ok
    then (
      false,
      record cl { has_kernel_mean_filter = true; has_kernel_bilateral_filter = false },
      created kernel_mean_filter ∷ cleanup_program,
    )
    else (
      true,
      record cl {
        has_kernel_mean_filter = true;
        has_kernel_bilateral_filter = true;
        has_input = input_ok;
        has_output = output_ok;
        initialized = true;
      },
      created kernel_mean_filter ∷ created kernel_bilateral_filter ∷ made input_ok d_input
          ++ made output_ok d_output,
    )
  where
    open r use {mean_ok, bilateral_ok, input_ok, output_ok}

-- `FilterCL_Init`
unfoldable pub filter_cl_init : Replies → FilterCl → Init FilterCl
unfolding set_up filter_cl_built
filter_cl_init r cl =
    set_up r.setup cl.base (λ b. record cl { base = b })
      (filter_cl_built r (record cl { base = all_made }))

-- `FilterCL_Cleanup`, which leaves the bilateral kernel alone.
unfoldable pub filter_cl_cleanup : FilterCl → FilterCl × List Event
filter_cl_cleanup cl = if not cl.initialized then (cl, []) else (
  record cl { initialized = false },
  freed cl.has_input d_input
      ++ freed cl.has_output d_output
      ++ freed cl.has_kernel_mean_filter kernel_mean_filter
      ++ freed cl.base.has_program program
      ++ freed cl.base.has_queue queue
      ++ freed cl.base.has_context context,
)

-- `FilterCL_ProcessMean` and `FilterCL_ProcessBilateral`
unfoldable pub process_mean : Kernel.Replies ℕ → FilterCl → List ℕ → ℤ × List ℕ
unfolding run
process_mean r cl output = run r cl.initialized output

unfoldable pub process_bilateral : Kernel.Replies ℕ → FilterCl → List ℕ → ℤ × List ℕ
unfolding run
process_bilateral r cl output = run r cl.initialized output
