-- ===== src/Cl/Diff.antt =====
-- src/config/cl/diff_cl.c: the difference of a frame from the last one.
use pre.Cl.{
  context, queue, program, kernel_diff, d_output, d_current, d_last, last_frame, Event, created,
  made, freed, Base, Setup, Init, cleanup_program, set_up, all_made,
}
use pre.Cl.Kernel
use pre.Prelude.{if◌then◌else◌, ℕ, Bool, true, false, not, List, [], ◌∷◌, ◌++◌}
use pre.Prelude.Int.{ℤ, pos, negsuc}

-- `DiffCL`: which handles are not NULL, and the flag.
pub record DiffCl : Type 0 where
  pub base : Base
  pub has_kernel_diff : Bool
  pub has_current : Bool
  pub has_last : Bool
  pub has_output : Bool
  pub has_last_frame : Bool
  pub initialized : Bool

-- Whether each call of `DiffCL_Init` succeeds, in the order of the calls.
pub record Replies : Type 0 where
  pub setup : Setup
  pub kernel_diff_ok : Bool
  pub current_ok : Bool
  pub last_ok : Bool
  pub output_ok : Bool
  pub malloc_ok : Bool

-- `DiffCL_Init` from `clCreateKernel` on.
unfoldable pub diff_cl_built : Replies → DiffCl → Init DiffCl
diff_cl_built r cl =
    let cl' = record cl {
      has_kernel_diff = true;
      has_current = current_ok;
      has_last = last_ok;
      has_output = output_ok;
      has_last_frame = malloc_ok;
    } in
    if not kernel_diff_ok
    then (false, record cl { has_kernel_diff = false }, cleanup_program)
    else if not malloc_ok
    then (
      false,
      cl',
      created kernel_diff ∷ made current_ok d_current
          ++ made last_ok d_last
          ++ made output_ok d_output
          ++ freed current_ok d_current
          ++ freed last_ok d_last
          ++ freed output_ok d_output
          ++ cleanup_program,
    )
    else (
      true,
      record cl' { initialized = true },
      created kernel_diff ∷ made current_ok d_current
          ++ made last_ok d_last
          ++ made output_ok d_output
          ++ made malloc_ok last_frame,
    )
  where
    open r use {kernel_diff_ok, current_ok, last_ok, output_ok, malloc_ok}

-- `DiffCL_Init`
unfoldable pub diff_cl_init : Replies → DiffCl → Init DiffCl
unfolding set_up diff_cl_built
diff_cl_init r cl =
    set_up r.setup cl.base (λ b. record cl { base = b })
      (diff_cl_built r (record cl { base = all_made }))

-- `DiffCL_Cleanup`
unfoldable pub diff_cl_cleanup : DiffCl → DiffCl × List Event
diff_cl_cleanup cl = if not cl.initialized then (cl, []) else (
  record cl { initialized = false },
  freed cl.has_last_frame last_frame
      ++ freed cl.has_current d_current
      ++ freed cl.has_last d_last
      ++ freed cl.has_output d_output
      ++ freed cl.has_kernel_diff kernel_diff
      ++ freed cl.base.has_program program
      ++ freed cl.base.has_queue queue
      ++ freed cl.base.has_context context,
)

-- `DiffCL_Diff`: the status, the output and the frame kept as the last one. Where the read fails the
-- output is left as it was.
unfoldable pub diff_cl_diff :
    Kernel.Replies ℕ → DiffCl → List ℕ → List ℕ → List ℕ → ℤ × List ℕ × List ℕ
diff_cl_diff r cl input output kept =
    if not cl.initialized
    then (negsuc 0, output, kept)
    else if not write_ok
    then (negsuc 0, output, kept)
    else if not args_ok
    then (negsuc 0, output, kept)
    else if not kernel_ok
    then (negsuc 0, output, kept)
    else if not read_ok
    then (negsuc 0, output, kept)
    else (pos 0, result, input)
  where
    open r use {write_ok, args_ok, kernel_ok, read_ok, result}
