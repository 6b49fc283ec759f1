-- ===== src/Dvp/Tests.antt =====
-- A mode, a set-up, an unmapping and a capture at concrete inputs, and the theorems there.
use pre.Dvp.Buffers.{
  Buffer, InitReplies, dvp_munmap, filled, Round, taken, sent, queued, dvp_capture,
}
use pre.Dvp.Laws.{dvp_munmap_exact, driver, ends, fills, dvp_capture_keeps}
use pre.Dvp.Streaming.{StreamReplies, dvp_streaming, dvp_exit_device}
use pre.Dvp.Buffers.{dvp_init_device, dvp_mmap, map_buffers, munmap_from, done, MapReply}
use pre.Prelude.{length, ℕ, ◌≡◌, refl, true, none, some, List, [], ◌∷◌}

abbrev one_granted : InitReplies
one_granted = record {
  open_ok = true;
  querycap_ok = true;
  capture_mplane = true;
  streaming = true;
  known_mode = true;
  set_fmt_ok = true;
  reqbufs_ok = true;
  calloc_ok = true;
  buffers = record { query_ok = true; length = 64; mapped = some 4096; queue_ok = true } ∷ [];
}

abbrev one_buffer : List Buffer
one_buffer = record { start = 4096; length = 64 } ∷ []

dvp_munmap_exact_example :
    dvp_munmap (
      record { start = 1; length = 9 }
      ∷ record { start = 2; length = 9 }
      ∷ record { start = 3; length = 9 }
      ∷ record { start = 4; length = 9 }
      ∷ record { start = 5; length = 9 }
      ∷ [])
    ≡ some ((1, 9) ∷ (2, 9) ∷ (3, 9) ∷ (4, 9) ∷ (5, 9) ∷ [])
dvp_munmap_exact_example = dvp_munmap_exact 1 2 3 4 5 9

abbrev one_round : List Round
one_round = record { dequeued = filled 0; queue_ok = true } ∷ []

dvp_capture_keeps_example :
    (q' : List ℕ) × (driver (0 ∷ 1 ∷ []) (taken 0 ∷ sent 0 ∷ queued 0 ∷ []) ≡ some q')
    × (length q' ≡ 2)
unfolding dvp_capture
dvp_capture_keeps_example =
    dvp_capture_keeps (0 ∷ 1 ∷ []) one_round 0 (taken 0 ∷ sent 0 ∷ queued 0 ∷ []) (fills true ends)
      refl

abbrev buffer_at : ℕ → MapReply
buffer_at a = record { query_ok = true; length = 64; mapped = some a; queue_ok = true }

abbrev five_granted : InitReplies
five_granted = record one_granted {
  buffers = buffer_at 1 ∷ buffer_at 2 ∷ buffer_at 3 ∷ buffer_at 4 ∷ buffer_at 5 ∷ [];
}

abbrev streams : InitReplies → StreamReplies
streams init = record { init = init; stream_on_ok = true; stream_off_ok = true; close_ok = true }

streamed :
    dvp_streaming (streams five_granted) one_round
    ≡ some (
        done (record {
          log = taken 0 ∷ sent 0 ∷ queued 0 ∷ [];
          unmapped = (1, 64) ∷ (2, 64) ∷ (3, 64) ∷ (4, 64) ∷ (5, 64) ∷ [];
        }))
unfolding dvp_streaming dvp_init_device dvp_mmap map_buffers dvp_capture dvp_exit_device dvp_munmap
    munmap_from
streamed = refl

-- A driver that grants one buffer.
streamed_one : dvp_streaming (streams one_granted) one_round ≡ none
unfolding dvp_streaming dvp_init_device dvp_mmap map_buffers dvp_capture dvp_exit_device dvp_munmap
    munmap_from
streamed_one = refl
