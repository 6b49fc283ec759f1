-- ===== src/Dvp.antt =====
-- The capture device of src/media/vi/v4l2_dvp.c: its mode, its buffers, and the loop that captures.
-- What the driver answers is an argument; `DVP_Error` ends the program.
pub mod Buffers
pub mod Streaming
pub mod Preprocess
pub mod Laws
mod Tests
use pre.Prelude.{◌==◌, if◌then◌else◌, ℕ}
use pre.Prelude.Int.{ℤ, pos, negsuc}

-- The modes and sizes of src/config/include/device.h.
abbrev pub mode_640 : ℕ
mode_640 = 0

abbrev pub mode_320 : ℕ
mode_320 = 1

-- The `v4l2_ir_dvp_` variables of a mode.
pub record Dvp : Type 0 where
  pub mode : ℕ
  pub capture_width : ℕ
  pub capture_height : ℕ
  pub valid_width : ℕ
  pub valid_height : ℕ

abbrev pub of_640 : Dvp
of_640 = record {
  mode = mode_640;
  capture_width = 1280;
  capture_height = 513;
  valid_width = 640;
  valid_height = 512;
}

abbrev pub of_320 : Dvp
of_320 = record {
  mode = mode_320;
  capture_width = 640;
  capture_height = 258;
  valid_width = 320;
  valid_height = 256;
}

-- The mode that `Init_DVP` of src/config/config.c starts with.
abbrev pub init_dvp : Dvp
init_dvp = of_640

-- `DVP_Mode`
unfoldable pub dvp_mode : ℤ → Dvp → ℤ × Dvp
dvp_mode (negsuc k) d = (negsuc 0, d)
dvp_mode (pos mode) d =
    if mode == mode_640
    then (pos 0, of_640)
    else if mode == mode_320
    then (pos 0, of_320)
    else (negsuc 0, d)
