-- ===== src/Config/StartupLaws.antt =====
-- What `Config_Init` and `Config_Exit` leave live.
use pre.Cl.{Slot, context, kernel_bilateral_filter, number, live, set_up}
use pre.Cl.Pseudo.{pseudo_cl_init}
use pre.Cl.Filter.{FilterCl, filter_cl_built, filter_cl_init}
use pre.Cl.Diff.{DiffCl, diff_cl_built, diff_cl_init}
use pre.Cl.Tm.{tmcl_init}
use pre.Cl.Lifecycle.{diff_cl_lifecycle, filter_cl_lifecycle, filter_cl_leak}
use pre.Config.Params.{TempParams, read_temp_params}
use pre.Config.User.{init_user_config}
use pre.Config.Startup.{
  Globals, load_luts, set_pseudo, set_filter, set_diff, set_tm, init_luts, init_cl, config_exit,
  config_init,
}
use pre.Lut.{Lut, lut_type_count}
use pre.Cl.Pseudo
use pre.Cl.Filter
use pre.Cl.Diff
use pre.Cl.Tm
use pre.Config.Startup
use pre.Dvp.{init_dvp}
use pre.Prelude.{
  ◌==◌, bind_some, guard_some, bind_guard, ℕ, ◌≡◌, sym, subst, inr, true, false, some, List, [],
  ◌++◌, arith,
}
use pre.Config.Contexts.{tmcl_init-live, pseudo_twice-live}
use pre.Prelude.Floats.{Floats}

-- Where `DiffCL_Init` succeeds, so did `malloc`; where `FilterCL_Init` does, so did its second kernel.
diff_cl_init-malloc_ok :
    (r : Diff.Replies) (cl : DiffCl) → (diff_cl_init r cl).0 ≡ true → r.malloc_ok ≡ true
unfolding diff_cl_init set_up diff_cl_built
diff_cl_init-malloc_ok r cl h = ground arith

filter_cl_init-bilateral_ok :
    (r : Filter.Replies) (cl : FilterCl) → (filter_cl_init r cl).0 ≡ true → r.bilateral_ok ≡ true
unfolding filter_cl_init set_up filter_cl_built
filter_cl_init-bilateral_ok r cl h = ground arith

-- No wrapper is set up and no call has been made.
pub record IsFresh {F : Type 0} (g : Globals F) : Type 0 where
  pub filter_fresh : g.filter_cl.initialized ≡ false
  pub diff_fresh : g.diff_cl.initialized ≡ false
  pub pseudo_none : g.pseudo_log ≡ []
  pub filter_none : g.filter_log ≡ []
  pub diff_none : g.diff_log ≡ []
  pub tm_none : g.tm_log ≡ []

module _ {F : Type 0} where
  -- The globals after each set-up that succeeds.
  abbrev with_pseudo : Pseudo.Replies → Globals F → Globals F
  with_pseudo r g =
      let (ok, cl, log) = pseudo_cl_init r g.pseudo_cl in
      record g { pseudo_cl = cl; pseudo_log = g.pseudo_log ++ log }

  abbrev with_filter : Filter.Replies → Globals F → Globals F
  with_filter r g =
      let (ok, cl, log) = filter_cl_init r g.filter_cl in
      record g { filter_cl = cl; filter_log = g.filter_log ++ log }

  abbrev with_diff : Diff.Replies → Globals F → Globals F
  with_diff r g =
      let (ok, cl, log) = diff_cl_init r g.diff_cl in
      record g { diff_cl = cl; diff_log = g.diff_log ++ log }

  abbrev with_tm : Tm.Replies → Globals F → Globals F
  with_tm r g =
      let (ok, cl, log) = tmcl_init r g.tm_cl in record g { tm_cl = cl; tm_log = g.tm_log ++ log }

  -- `Init_CL` succeeds only where each of its set-ups does.
  init_cl-some :
      (r : Startup.Replies) (g g' : Globals F)
      → init_cl r g ≡ some g'
      → ((pseudo_cl_init r.pseudo_second g.pseudo_cl).0 ≡ true)
        × ((filter_cl_init r.filter g.filter_cl).0 ≡ true)
        × ((diff_cl_init r.diff g.diff_cl).0 ≡ true)
        × ((tmcl_init r.tm g.tm_cl).0 ≡ true)
        × (with_tm r.tm (with_diff r.diff (with_filter r.filter (with_pseudo r.pseudo_second g)))
            ≡ g')
  unfolding init_cl set_pseudo set_filter set_diff set_tm
  init_cl-some r g g' h =
      let (ok1, h1) = bind_guard _ _ _ g' h in
      let (ok2, h2) = bind_guard _ _ _ g' h1 in
      let (ok3, h3) = bind_guard _ _ _ g' h2 in
      let (ok4, e) = guard_some _ _ g' h3 in (ok1, ok2, ok3, ok4, e)

  -- And so does `Init_LUTs`.
  init_luts-some :
      (r : Startup.Replies) (g g' : Globals F)
      → init_luts r g ≡ some g'
      → ((pseudo_cl_init r.pseudo_first g.pseudo_cl).0 ≡ true)
        × ((luts : List Lut) × (with_pseudo r.pseudo_first (record g { luts = luts }) ≡ g'))
  unfolding init_luts set_pseudo
  init_luts-some r g g' h =
      let (luts, e, h1) =
        bind_some (load_luts r.lut_files lut_type_count 0 g.luts)
          (λ luts. set_pseudo r.pseudo_first (record g { luts = luts })) g' h in
      let (ok, e') = guard_some _ _ g' h1 in (ok, (luts, e'))

  -- What stays live of the resources of a slot after the exit.
  abbrev pub LeavesLive : Slot → Globals F → Type 0
  LeavesLive s e =
      (live s 0 e.diff_log ≡ some 0)
      × ((number s == number kernel_bilateral_filter) ≡ false → live s 0 e.filter_log ≡ some 0)
      × (live kernel_bilateral_filter 0 e.filter_log ≡ some 1)
      × (live context 0 e.pseudo_log ≡ some 1)
      × (live context 0 e.tm_log ≡ some 1)

  exit-LeavesLive :
      (r : Startup.Replies) (g : Globals F) (s : Slot)
      → IsFresh g
      → let g1 = with_pseudo r.pseudo_first g in
        (pseudo_cl_init r.pseudo_first g.pseudo_cl).0 ≡ true
        → (pseudo_cl_init r.pseudo_second g1.pseudo_cl).0 ≡ true
        → (filter_cl_init r.filter g.filter_cl).0 ≡ true
        → (diff_cl_init r.diff g.diff_cl).0 ≡ true
        → (tmcl_init r.tm g.tm_cl).0 ≡ true
        → LeavesLive s (
            config_exit (
              with_tm r.tm
                (with_diff r.diff (with_filter r.filter (with_pseudo r.pseudo_second g1)))))
  unfolding config_exit
  exit-LeavesLive r g s fresh ok ok1 ok2 ok3 ok4 = (
    rw fresh.diff_none (
        diff_cl_lifecycle r.diff g.diff_cl s fresh.diff_fresh
          (inr (diff_cl_init-malloc_ok r.diff g.diff_cl ok3))),
    λ other. rw fresh.filter_none (
        filter_cl_lifecycle r.filter g.filter_cl s fresh.filter_fresh
          (inr (filter_cl_init-bilateral_ok r.filter g.filter_cl ok2)) other),
    rw fresh.filter_none (filter_cl_leak r.filter g.filter_cl ok2),
    rw fresh.pseudo_none (pseudo_twice-live r.pseudo_first r.pseudo_second g.pseudo_cl ok ok1),
    rw fresh.tm_none (tmcl_init-live r.tm g.tm_cl ok4),
  )

-- Where `Config_Init` returns from fresh globals, whatever the files and OpenCL answered, `Config_Exit`
-- after it leaves nothing live of the difference wrapper and of the filter wrapper only the
-- bilateral kernel, releases nothing that is not live there; one context of the
-- colour wrapper and that of the temperature wrapper stay live.
pub config_init-config_exit :
    (fl : Floats) (atof : List ℕ → fl.F) (defaults : TempParams fl.F) (r : Startup.Replies)
    (g g' : Globals fl.F) (s : Slot)
    → IsFresh g
    → config_init fl atof defaults r g ≡ some g'
    → LeavesLive s (config_exit g')
unfolding config_init
config_init-config_exit fl atof defaults r g g' s fresh h =
    let (g1, e1, h1) = bind_some _ _ g' h in
    let g0 = record g {
      usr = record (init_user_config fl g.usr) {
        tm = (read_temp_params atof defaults true r.params).1;
      };
      dvp = init_dvp;
    } in
    let (ok, (luts, x1)) = init_luts-some r g0 g1 e1 in
    let (ok1, ok2, ok3, ok4, x2) =
      init_cl-some r _ g' (subst (λ x. init_cl r x ≡ some g') (sym x1) h1) in
    subst (λ x. LeavesLive s (config_exit x)) x2
      (exit-LeavesLive r (record g0 { luts = luts }) s
        (record {
          filter_fresh = fresh.filter_fresh;
          diff_fresh = fresh.diff_fresh;
          pseudo_none = fresh.pseudo_none;
          filter_none = fresh.filter_none;
          diff_none = fresh.diff_none;
          tm_none = fresh.tm_none;
        })
        ok ok1 ok2 ok3 ok4)
