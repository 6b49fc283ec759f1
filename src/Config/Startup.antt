-- ===== src/Config/Startup.antt =====
-- `Config_Init` and `Config_Exit` of src/config/config.c, over the tables and the OpenCL wrappers.
use pre.Lut.{Lut, lut_type_count, Io, done, out_of_range, init_lut, free_all_luts}
use pre.Cl.{Event}
use pre.Cl.Pseudo.{PseudoCl, pseudo_cl_init, pseudo_cl_cleanup}
use pre.Cl.Filter.{FilterCl, filter_cl_init, filter_cl_cleanup}
use pre.Cl.Diff.{DiffCl, diff_cl_init, diff_cl_cleanup}
use pre.Cl.Tm.{Tmcl, tmcl_init}
use pre.Cl.Pseudo
use pre.Cl.Filter
use pre.Cl.Diff
use pre.Cl.Tm
use pre.Config.Params.{TempParams, read_temp_params}
use pre.Config.User.{UserConfig, init_user_config}
use pre.Dvp.{Dvp, init_dvp}
use pre.Prelude.{if◌then◌else◌, ◌>>=◌, ℕ, zero, suc, ◌+◌, true, not, Option, none, some, List, ◌++◌}
use pre.Prelude.Int.{pos, negsuc}
use pre.Prelude.Floats.{Floats}

-- The globals, with the calls to OpenCL that each wrapper has made.
pub record Globals (F : Type 0) : Type 0 where
  pub usr : UserConfig F
  pub dvp : Dvp
  pub luts : List Lut
  pub pseudo_cl : PseudoCl
  pub pseudo_log : List Event
  pub filter_cl : FilterCl
  pub filter_log : List Event
  pub diff_cl : DiffCl
  pub diff_log : List Event
  pub tm_cl : Tmcl
  pub tm_log : List Event

-- What the files and OpenCL answer: `Init_LUTs` and `Init_CL` each set up the colour wrapper.
pub record Replies : Type 0 where
  pub params : Option (List ℕ)
  pub lut_files : ℕ → Io
  pub pseudo_first : Pseudo.Replies
  pub pseudo_second : Pseudo.Replies
  pub filter : Filter.Replies
  pub diff : Diff.Replies
  pub tm : Tm.Replies

-- The calls of `Init_LUT` from table `t` on, with the number left; `none` where `EXIT_ERROR` ends the
-- program, or where a table is out of range.
unfoldable pub load_luts : (ℕ → Io) → ℕ → ℕ → List Lut → Option (List Lut)
load_luts files zero t luts = some luts
load_luts files (suc left) t luts = elim (init_lut (files t) (pos t) luts) [
  | out_of_range ↦ none
  | done (negsuc k, luts') ↦ none
  | done (pos k, luts') ↦ load_luts files left (t + 1) luts'
]

module _ {F : Type 0} where
  unfoldable pub set_pseudo : Pseudo.Replies → Globals F → Option (Globals F)
  set_pseudo r g =
      let (ok, cl, log) = pseudo_cl_init r g.pseudo_cl in
      if not ok then none else some (record g { pseudo_cl = cl; pseudo_log = g.pseudo_log ++ log })

  unfoldable pub set_filter : Filter.Replies → Globals F → Option (Globals F)
  set_filter r g =
      let (ok, cl, log) = filter_cl_init r g.filter_cl in
      if not ok then none else some (record g { filter_cl = cl; filter_log = g.filter_log ++ log })

  unfoldable pub set_diff : Diff.Replies → Globals F → Option (Globals F)
  set_diff r g =
      let (ok, cl, log) = diff_cl_init r g.diff_cl in
      if not ok then none else some (record g { diff_cl = cl; diff_log = g.diff_log ++ log })

  unfoldable pub set_tm : Tm.Replies → Globals F → Option (Globals F)
  set_tm r g =
      let (ok, cl, log) = tmcl_init r g.tm_cl in
      if not ok then none else some (record g { tm_cl = cl; tm_log = g.tm_log ++ log })

  -- `Init_LUTs`
  unfoldable pub init_luts : Replies → Globals F → Option (Globals F)
  unfolding load_luts set_pseudo
  init_luts r g = do
    luts ← load_luts r.lut_files lut_type_count 0 g.luts
    set_pseudo r.pseudo_first (record g { luts = luts })

  -- `Init_CL`
  unfoldable pub init_cl : Replies → Globals F → Option (Globals F)
  unfolding set_pseudo set_filter set_diff set_tm
  init_cl r g = do
    g1 ← set_pseudo r.pseudo_second g
    g2 ← set_filter r.filter g1
    g3 ← set_diff r.diff g2
    set_tm r.tm g3

  -- `Config_Exit`
  unfoldable pub config_exit : Globals F → Globals F
  config_exit g =
      let (pseudo_cl', pseudo_calls) = pseudo_cl_cleanup g.pseudo_cl in
      let (filter_cl', filter_calls) = filter_cl_cleanup g.filter_cl in
      let (diff_cl', diff_calls) = diff_cl_cleanup g.diff_cl in
      record g {
        pseudo_cl = pseudo_cl';
        pseudo_log = g.pseudo_log ++ pseudo_calls;
        filter_cl = filter_cl';
        filter_log = g.filter_log ++ filter_calls;
        diff_cl = diff_cl';
        diff_log = g.diff_log ++ diff_calls;
        luts = free_all_luts g.luts;
      }

-- `Config_Init`, from `Init_User_Config` on; `defaults` are the parameters that
-- `Read_Temp_Params` starts from, whose status is not looked at. The ring of frames that
-- `Init_DVP` sets up too has a state of its own.
unfoldable pub config_init :
    (fl : Floats)
    → (List ℕ → fl.F)
    → TempParams fl.F
    → Replies
    → Globals fl.F
    → Option (Globals fl.F)
unfolding init_user_config init_luts init_cl
config_init fl atof defaults r g = do
  let usr = init_user_config fl g.usr
  let (status, tm) = read_temp_params atof defaults true r.params
  let g1 = record g { usr = record usr { tm = tm }; dvp = init_dvp }
  g2 ← init_luts r g1
  init_cl r g2
