-- ===== src/Output/ProcessLaws.antt =====
-- A frame from the ring through the picture into shared memory.
use pre.Picture.{Picture}
use pre.Output.Process.{Output}
use pre.Prelude.Floats.{Floats}
