-- ===== src/Output/ProcessTests.antt =====
-- The theorem on a round of the output at a concrete input.
use pre.FrameSync.Tests.{two_waiting}
use pre.Picture.{Picture}
use pre.Picture.Tests.{frame, replies}
use pre.Output.Process.{Semop, Output}
use pre.Prelude.{true, [], ◌∷◌}
use pre.Prelude.Floats.{whole}

abbrev posted : Semop
posted = record { wait_ok = true; release_ok = true }

-- Two frames wait, and the segments are of the picture's size.
abbrev running : Output whole replies 2 1
running = record {
  sync = two_waiting;
  picture = frame;
  shared = record { shm_yuv = 0 ∷ 0 ∷ 0 ∷ []; shm_float = 0 ∷ 0 ∷ []; semaphore = 1 };
}
