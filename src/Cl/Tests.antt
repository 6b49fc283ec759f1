-- ===== src/Cl/Tests.antt =====
-- Set-ups that succeed and that fail, and the theorems at replies that meet their hypotheses.
use pre.Cl.Pseudo.{PseudoCl, pseudo_cl_init, pseudo_cl_cleanup}
use pre.Cl.PseudoLut.{LutBuffers, LutReplies, RunReplies, process_nv12}
use pre.Cl.PseudoLifecycle.{pseudo_cl_lifecycle}
use pre.Cl.PseudoLutLaws.{IsConsistent, Accounts, process_nv12_buffers}
use pre.Cl.Samples.{no_pseudo_cl, pseudo_replies}
use pre.Cl.Kernel
use pre.Cl.{d_uv_out, live, all_made}
use pre.Prelude.{ℕ, ◌≡◌, refl, true, false, some, [], ◌∷◌, ◌++◌}

pseudo_cl_lifecycle_example :
    live d_uv_out 0 (
      (pseudo_cl_init pseudo_replies no_pseudo_cl).2
      ++ (pseudo_cl_cleanup (pseudo_cl_init pseudo_replies no_pseudo_cl).1).1)
    ≡ some 0
pseudo_cl_lifecycle_example =
    pseudo_cl_lifecycle pseudo_replies no_pseudo_cl d_uv_out
      (record { not_initialized = refl; no_y = refl; no_u = refl; no_v = refl }) refl

abbrev ready : PseudoCl
ready = record no_pseudo_cl { base = all_made; has_color_map = true; initialized = true }

abbrev run_ok : RunReplies
run_ok = record {
  write_input = true;
  write_temps = true;
  write_uv_maps = true;
  args = true;
  kernel = true;
  read = true;
}

abbrev lut_ok : LutReplies
lut_ok = record {
  y_ok = true;
  u_ok = true;
  v_ok = true;
  write_y = true;
  write_u = true;
  write_v = true;
}

abbrev of_64 : LutBuffers
of_64 = record { y = some 64; u = some 64; v = some 64 }

abbrev of_64-IsConsistent : IsConsistent of_64
of_64-IsConsistent = record { same_u = refl; same_v = refl }

process_nv12_buffers_example :
    IsConsistent ((process_nv12 run_ok lut_ok ready of_64 0 (some 256)).buffers)
    × Accounts of_64
        ((process_nv12 run_ok lut_ok ready of_64 0 (some 256)).calls)
        ((process_nv12 run_ok lut_ok ready of_64 0 (some 256)).buffers)
process_nv12_buffers_example =
    process_nv12_buffers run_ok lut_ok ready of_64 0 (some 256) of_64-IsConsistent

abbrev read_fails : Kernel.Replies ℕ
read_fails = record {
  write_ok = true;
  args_ok = true;
  kernel_ok = true;
  read_ok = false;
  result = 7 ∷ [];
}
