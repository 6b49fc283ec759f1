-- ===== src/Cl/Runs.antt =====
-- A run of a kernel succeeds exactly where every call does, and only then changes what it writes.
use pre.Cl.Tm.{Tmcl, tmcl_process, tmcl_process_exp}
use pre.Cl.Filter.{FilterCl, process_mean, process_bilateral}
use pre.Cl.Diff.{DiffCl, diff_cl_diff}
use pre.Cl.Kernel.{run}
use pre.Cl.Kernel
use pre.Prelude.{if◌then◌else◌, ℕ, ◌≡◌, ◌⊎◌, Bool, true, false, ◌&&◌, List, arith}
use pre.Prelude.Int.{pos, negsuc}

abbrev pub all_calls : {A : Type 0} → Kernel.Replies A → Bool
all_calls r = r.write_ok && r.args_ok && r.kernel_ok && r.read_ok

-- Of an initialised struct and where every call succeeds, `DiffCL_Diff` returns 0 with the result and
-- keeps the input for the next difference; else it returns -1, and the output and the kept frame are
-- as they were.
pub diff_cl_diff_lem :
    (r : Kernel.Replies ℕ) (cl : DiffCl) (input output kept : List ℕ)
    → ((cl.initialized && all_calls r ≡ true)
        × (diff_cl_diff r cl input output kept ≡ (pos 0, r.result, input)))
      ⊎ ((cl.initialized && all_calls r ≡ false)
          × (diff_cl_diff r cl input output kept ≡ (negsuc 0, output, kept)))
unfolding diff_cl_diff
diff_cl_diff_lem r cl input output kept = ground arith

-- The runs of the temperature and filter wrappers return 0 with the result where the struct is
-- initialised and every call succeeds; else they return -1 and leave the output as it was.
pub runs_lem :
    (r : Kernel.Replies ℕ) (tm : Tmcl) (filter : FilterCl) (output : List ℕ)
    → (tmcl_process r tm output
        ≡ (if tm.initialized && all_calls r then (pos 0, r.result) else (negsuc 0, output)))
      × (tmcl_process_exp r tm output
          ≡ (if tm.initialized && all_calls r then (pos 0, r.result) else (negsuc 0, output)))
      × (process_mean r filter output
          ≡ (if filter.initialized && all_calls r then (pos 0, r.result) else (negsuc 0, output)))
      × (process_bilateral r filter output
          ≡ (if filter.initialized && all_calls r then (pos 0, r.result) else (negsuc 0, output)))
unfolding tmcl_process tmcl_process_exp process_mean process_bilateral run
runs_lem r tm filter output = (ground arith, ground arith, ground arith, ground arith)
