-- ===== src/Cl/Kernel.antt =====
-- A run of one kernel on one picture, as TMCL_Process, TMCL_Process_Exp, FilterCL_ProcessMean and
-- FilterCL_ProcessBilateral have it: write, arguments, kernel, read.
use pre.Prelude.{if◌then◌else◌, Bool, not, List}
use pre.Prelude.Int.{ℤ, pos, negsuc}

-- Whether each call succeeds: the writes of the input, the kernel arguments, the kernel, and the read
-- of the result, whose items are `result`.
pub record Replies (A : Type 0) : Type 0 where
  pub write_ok : Bool
  pub args_ok : Bool
  pub kernel_ok : Bool
  pub read_ok : Bool
  pub result : List A

-- The status and the output, which a failed run leaves as it was.
unfoldable pub run : {A : Type 0} → Replies A → Bool → List A → ℤ × List A
run r initialized output =
    if not initialized
    then (negsuc 0, output)
    else if not write_ok
    then (negsuc 0, output)
    else if not args_ok
    then (negsuc 0, output)
    else if not kernel_ok
    then (negsuc 0, output)
    else if not read_ok
    then (negsuc 0, output)
    else (pos 0, result)
  where
    open r use {write_ok, args_ok, kernel_ok, read_ok, result}
