-- ===== src/Config/Tests.antt =====
-- The theorems on the configuration at concrete inputs.
use pre.Config.Text.{
  isspace, take_until, drop_while, trim_end, trim, prepend, fgets_all, cut, scan_value, sscanf,
  same,
}
use pre.Config.Params.{ini_max_lines, assign, read_trimmed, read_line, read_lines, read_temp_params}
use pre.Config.Entries.{outside, entries, complete, given}
use pre.Config.Entries.Refinement.{read_temp_params_lem}
use pre.Config.Printing.{printed, read_temp_params-printed}
use pre.Config.Printing.Words.{is_word, is_blank}
use pre.Config.Printing.Entries.{KeyLine, IsKeyLine, Around, IsAround}
use pre.Config.Samples.{defaults, usr}
use pre.Config.Startup.{
  Globals, load_luts, set_pseudo, set_filter, set_diff, set_tm, init_luts, init_cl, config_exit,
  config_init,
}
use pre.Config.StartupLaws.{IsFresh, LeavesLive, config_init-config_exit}
use pre.Dvp.{init_dvp}
use pre.Lut.{Io, empty_lut, init_single_lut, free_single_lut, free_lut, init_lut}
use pre.Cl.Pseudo.{pseudo_cl_buffers, pseudo_cl_built, pseudo_cl_init}
use pre.Cl.Filter.{filter_cl_built, filter_cl_init}
use pre.Cl.Diff.{diff_cl_built, diff_cl_init}
use pre.Cl.Tm.{tmcl_built, tmcl_init}
use pre.Cl.Samples.{
  no_tmcl, no_diff_cl, no_filter_cl, no_pseudo_cl, tm_replies, diff_replies, filter_replies,
  pseudo_replies,
}
use pre.Cl.{queue, set_up}
use pre.Config.Startup
use pre.Prelude.{
  if◌then◌else◌, get_or, replicate, ℕ, ◌-◌, ◌≡◌, refl, true, Option, none, some, List, [], ◌∷◌,
  arith,
}
use pre.Prelude.Int.{pos, negsuc}
use pre.Prelude.Floats.{whole}

-- A number of one digit.
abbrev atof : List ℕ → ℕ
atof s = get_or s 0 0x30 - 0x30

-- A comment, a section, an assignment with blanks, and a key that the section does not have.
abbrev file : List ℕ
file =
    0x3b ∷ 0x0a ∷ 0x5b ∷ 0x4c ∷ 0x6e ∷ 0x5d ∷ 0x0d ∷ 0x0a ∷ 0x61 ∷ 0x20 ∷ 0x3d ∷ 0x20 ∷ 0x39 ∷ 0x0a
    ∷ 0x63 ∷ 0x3d ∷ 0x38 ∷ []

read_file :
    read_temp_params atof defaults true (some file) ≡ (negsuc 0, record defaults { ln_a = 9 })
unfolding read_temp_params read_lines read_line read_trimmed assign fgets_all prepend cut take_until
    trim drop_while trim_end isspace sscanf scan_value same
read_file = refl

read_temp_params_lem_example :
    let es = entries outside (fgets_all ini_max_lines (ini_max_lines - 1) file) in
    read_temp_params atof defaults true (some file)
    ≡ (if complete es then pos 0 else negsuc 0, given atof defaults es)
read_temp_params_lem_example = read_temp_params_lem atof defaults file

abbrev seven : KeyLine
seven = record {
  before = 0x20 ∷ [];
  gap = 9 ∷ [];
  indent = 0x20 ∷ 0x20 ∷ [];
  value = 0x37 ∷ [];
  after = 0x20 ∷ [];
}

seven-IsKeyLine : IsKeyLine seven
unfolding is_word is_blank isspace
seven-IsKeyLine = record {
  before_blank = refl;
  gap_blank = refl;
  indent_blank = refl;
  after_blank = refl;
  value_word = refl;
  value_there = omega arith;
  fits = omega arith;
}

abbrev indented : Around
indented = record { before = 9 ∷ []; after = 0x20 ∷ [] }

indented-IsAround : IsAround indented
unfolding is_blank
indented-IsAround = record { before_blank = refl; after_blank = refl; fits = omega arith }

read_temp_params-printed_example :
    read_temp_params atof defaults true
      (some (printed indented seven seven seven indented seven seven))
    ≡ (
      pos 0,
      record {
        quadratic_a = 7;
        quadratic_b = 7;
        quadratic_c = 7;
        ln_a = 7;
        ln_b = 7;
        ln_epsilon = 6;
      },
    )
read_temp_params-printed_example =
    read_temp_params-printed atof defaults indented seven seven seven indented seven seven
      indented-IsAround seven-IsKeyLine seven-IsKeyLine seven-IsKeyLine indented-IsAround
      seven-IsKeyLine seven-IsKeyLine

abbrev fresh : Globals ℕ
fresh = record {
  usr = usr;
  dvp = init_dvp;
  luts = replicate 8 empty_lut;
  pseudo_cl = no_pseudo_cl;
  pseudo_log = [];
  filter_cl = no_filter_cl;
  filter_log = [];
  diff_cl = no_diff_cl;
  diff_log = [];
  tm_cl = no_tmcl;
  tm_log = [];
}

fresh-IsFresh : IsFresh fresh
fresh-IsFresh = record {
  filter_fresh = refl;
  diff_fresh = refl;
  pseudo_none = refl;
  filter_none = refl;
  diff_none = refl;
  tm_none = refl;
}

abbrev one_colour : Io
one_colour = record {
  file = some (10 ∷ 20 ∷ 30 ∷ []);
  fread_len = 3;
  malloc_rgb = true;
  malloc_y = true;
  malloc_u = true;
  malloc_v = true;
}

abbrev replies : Startup.Replies
replies = record {
  params = none;
  lut_files = λ t. one_colour;
  pseudo_first = record pseudo_replies { temps_ok = true };
  pseudo_second = record pseudo_replies { temps_ok = true };
  filter = filter_replies;
  diff = diff_replies;
  tm = tm_replies;
}

abbrev started : Option (Globals ℕ)
started = config_init whole atof defaults replies fresh

abbrev after : Globals ℕ
after = elim started [ some g ↦ g | none ↦ fresh ]

started-some : started ≡ some after
unfolding config_init init_luts init_cl load_luts set_pseudo set_filter set_diff set_tm init_lut
    free_lut free_single_lut init_single_lut pseudo_cl_init pseudo_cl_built pseudo_cl_buffers set_up
    filter_cl_init filter_cl_built diff_cl_init diff_cl_built tmcl_init tmcl_built
started-some = refl

config_init-config_exit_example : LeavesLive queue (config_exit after)
config_init-config_exit_example =
    config_init-config_exit whole atof defaults replies fresh after queue fresh-IsFresh started-some
