-- ===== src/FrameSync.antt =====
-- The ring of frames between the capture thread and the output thread: `struct FrameSync16` of
-- src/config/include/global.h, filled by `DVP_Send` (src/media/vi/v4l2_dvp.c) and emptied by
-- `SHM_VO_Copy` (src/media/vo/shm_vo.cpp). Each function here is what runs with the mutex held;
-- the waits on the condition variables are in the child `Threads`.
pub mod Invariant
pub mod Pending
pub mod Threads
pub mod Tests
use pre.Prelude.{
  ltb, leb, ◌==◌, if◌then◌else◌, ◌>>=◌, length, get_elem?, set, take, drop, ℕ, zero, suc, ◌+◌, ◌-◌,
  ◌%◌, Bool, true, false, ◌&&◌, Option, none, some, List, [], ◌∷◌, ◌++◌,
}
use pre.Prelude.Int.{pos, ◌-ℤ◌}
use pre.Prelude.Floats.{Floats}

-- The 16-bit pixels of one image, row by row.
abbrev pub Frame : Type 0
Frame = List ℕ

pub record Timeval : Type 0 where
  pub tv_sec : ℕ
  pub tv_usec : ℕ

pub record FrameSync16 : Type 0 where
  pub write_pos : ℕ
  pub read_pos : ℕ
  pub frame_count : ℕ
  pub buffer_full : Bool
  pub last_frame_time : Timeval
  pub frame_buffer : List Frame

-- FRAME_SYNC_BUFFER_SIZE
abbrev pub buffer_size : ℕ
buffer_size = 8

-- IR_TARGET_FPS
abbrev pub target_fps : ℕ
target_fps = 25

-- `memcpy` of `n` pixels: what lies past them in the destination stays. `none` is an access out of
-- range.
abbrev pub memcpy : ℕ → Frame → Frame → Option Frame
memcpy n dst src =
    if leb n (length dst) && leb n (length src) then some (take n src ++ drop n dst) else none

-- The loop that allocates slot `i`, with the rounds left; `fresh` is what the allocator leaves in each.
abbrev pub allocate : (ℕ → Frame) → ℕ → ℕ → List Frame
allocate fresh i zero = []
allocate fresh i (suc left) = fresh i ∷ allocate fresh (i + 1) left

-- `Init_Frame_Sync_DVP`, where each `malloc` succeeds.
pub init_frame_sync_dvp : Timeval → (ℕ → Frame) → FrameSync16
init_frame_sync_dvp now fresh = record {
  write_pos = 0;
  read_pos = 0;
  frame_count = 0;
  buffer_full = false;
  last_frame_time = now;
  frame_buffer = allocate fresh 0 buffer_size;
}

-- `(pos + 1) % FRAME_SYNC_BUFFER_SIZE`
abbrev pub next_pos : ℕ → ℕ
next_pos p = (p + 1) % buffer_size

-- `DVP_Send` from the copy to the signal.
pub store : ℕ → Frame → FrameSync16 → Option FrameSync16
store n captured s = do
  slot ← get_elem? frame_buffer write_pos
  copied ← memcpy n slot captured
  let w = next_pos write_pos
  some (record s {
    frame_buffer = set frame_buffer write_pos copied;
    write_pos = w;
    frame_count = frame_count + 1;
    buffer_full = if w == read_pos then true else buffer_full;
  })
  where
    open s use {frame_buffer, write_pos, read_pos, frame_count, buffer_full}

-- One round of the loop that skips a frame.
abbrev pub skip_one : FrameSync16 → FrameSync16
skip_one s = record s { read_pos = next_pos s.read_pos; frame_count = s.frame_count - 1 }

-- `while (frame_count > 1)`, with fuel.
pub skip_stale : ℕ → FrameSync16 → FrameSync16
skip_stale zero s = s
skip_stale (suc fuel) s =
    let rest = skip_stale fuel (skip_one s) in if ltb 1 s.frame_count then rest else s

module _ (fl : Floats) where
  open fl use {F, of_ℤ, add, div, lt}

  -- `frame_interval`, a double: seconds since the last frame was taken.
  pub frame_interval : Timeval → Timeval → F
  frame_interval now last =
      add (of_ℤ (pos now.tv_sec -ℤ pos last.tv_sec))
        (div (of_ℤ (pos now.tv_usec -ℤ pos last.tv_usec)) (of_ℤ (pos 1000000)))

  -- `frame_interval > 1.0 / IR_TARGET_FPS`
  pub is_late : Timeval → Timeval → Bool
  is_late now last = lt (div (of_ℤ (pos 1)) (of_ℤ (pos target_fps))) (frame_interval now last)

  -- `SHM_VO_Copy` past its wait: the new ring beside the new `algo_in`.
  pub fetch : ℕ → Timeval → Frame → FrameSync16 → Option (FrameSync16 × Frame)
  fetch n now algo_in s0 = do
    let s = if is_late now s0.last_frame_time then skip_stale s0.frame_count s0 else s0
    slot ← get_elem? s.frame_buffer s.read_pos
    out ← memcpy n algo_in slot
    some (
      record s {
        read_pos = next_pos s.read_pos;
        frame_count = s.frame_count - 1;
        buffer_full = false;
        last_frame_time = now;
      },
      out,
    )
