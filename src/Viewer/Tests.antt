-- ===== src/Viewer/Tests.antt =====
-- The theorems on the programs that read shared memory at concrete inputs.
use pre.Viewer.Exchange.{
  Exchange, created, outside, away, send_waits, send_copies, send_releases, show_waits, show_copies,
  show_releases, Reach, begin, next,
}
use pre.Viewer.Exchange.Sound.{Known, writes, reads}
use pre.Viewer.Exchange.Safety.{exchange_lem}
use pre.Viewer.Recorder.{
  no_resources, init_resources, cleanup_resources, InitReplies, shmdt, Round, Recorder, capture,
  algo_size, sum_from,
}
use pre.Viewer.Recorder.Laws.{split, capture_lem}
use pre.Viewer.Gst.{appsrc, gst_push_frame, new_gst, vo_gst_streaming}
use pre.Viewer.Gst as Gst
use pre.Viewer.Show as Show
use pre.Viewer.Gst.Laws.{owned, vo_gst_streaming_lem}
use pre.Output.{attached}
use pre.Prelude.{
  ℕ, ◌+◌, ◌≤◌, ◌≡◌, refl, length, replicate, length-replicate, true, false, All, some, List, [],
  ◌∷◌, arith,
}

-- A byte 7 is sent and then shown.
abbrev sent_7 : Reach 1 (created (0 ∷ [])) (record (created (7 ∷ [])) { sent = (7 ∷ []) ∷ [] })
sent_7 =
    next
      (next (next begin (send_waits (7 ∷ []) refl (omega arith) refl))
        (send_copies (7 ∷ []) 0 refl (omega arith)))
      (send_releases (7 ∷ []) refl)

abbrev shown_7 : Exchange
shown_7 = record (created (7 ∷ [])) { sent = (7 ∷ []) ∷ []; shown = (7 ∷ []) ∷ [] }

abbrev shows_7 : Reach 1 (created (0 ∷ [])) shown_7
shows_7 =
    next (next (next sent_7 (show_waits refl (omega arith))) (show_copies [] refl (omega arith)))
      (show_releases (7 ∷ []) refl refl)

exchange_lem_example :
    (writes outside + reads away ≤ 1) × All (Known (0 ∷ []) ((7 ∷ []) ∷ [])) ((7 ∷ []) ∷ [])
exchange_lem_example = exchange_lem 1 (0 ∷ []) shown_7 refl shows_7

abbrev picture : ℕ → List ℕ
picture v = replicate 100 v

-- A segment, and its size.
unfoldable segment : ℕ → List ℕ
segment v = replicate algo_size v

segment-length : (v : ℕ) → length (segment v) ≡ algo_size
unfolding segment
segment-length v = length-replicate algo_size v

abbrev rounds : List Round
rounds =
    record {
      running = true;
      wait_ok = true;
      shm_algo = segment 3;
      written = algo_size;
      release_ok = true;
    }
    ∷ record {
      running = true;
      wait_ok = true;
      shm_algo = segment 4;
      written = algo_size;
      release_ok = false;
    }
    ∷ record {
      running = true;
      wait_ok = true;
      shm_algo = segment 5;
      written = algo_size;
      release_ok = true;
    }
    ∷ []

abbrev started : Recorder
started = record {
  saved = record { last_frame_sum = 0; file = [] };
  frame_count = 0;
  holds = false;
}

capture_lem_example :
    (s' : Recorder) × (capture rounds started ≡ some s')
    × (split algo_size 2 s'.saved.file ≡ segment 3 ∷ segment 4 ∷ [])
capture_lem_example =
    capture_lem rounds started
      ((segment-length 3, refl), ((segment-length 4, refl), ((segment-length 5, refl), tt))) refl

-- A picture whose first 100 bytes add up to 256 has the sum of a black one.
wraps : sum_from (replicate 64 4) 64 0 0 ≡ some 0
unfolding sum_from
wraps = refl

-- Where the file cannot be opened the segment stays attached: `main` returns without the clean-up,
-- which would have detached it.
abbrev no_file : InitReplies
no_file = record { shmget = true; shmat = true; semget = true; fopen = false }

stays_attached : cleanup_resources (init_resources no_file no_resources).1 ≡ shmdt attached ∷ []
unfolding cleanup_resources init_resources
stays_attached = refl

-- The last element is not made.
abbrev no_sink : Gst.InitReplies
no_sink = record {
  main_loop_new = true;
  pipeline_new = true;
  appsrc_made = true;
  videoflip_made = true;
  videoscale_made = true;
  capsfilter_made = true;
  videoconvert_made = true;
  waylandsink_made = false;
  linked = true;
  playing = true;
}

vo_gst_streaming_lem_example :
    (owned appsrc 0 (vo_gst_streaming no_sink new_gst).1 ≡ some 1)
    × ((vo_gst_streaming no_sink new_gst).0 ≡ record new_gst { has_appsrc = true })
vo_gst_streaming_lem_example = vo_gst_streaming_lem no_sink appsrc

-- The main loop shows a picture and meets SIGINT.
abbrev shown_once : List Show.Round
shown_once =
    record {
      running = true;
      wait_ok = true;
      gst = record { has_pipeline = true; has_appsrc = true; has_main_loop = true };
      push = record { buffer_new = true; buffer_map = true; push_ok = true };
      shm_yuv = picture 3;
      release_ok = true;
    }
    ∷ record {
      running = false;
      wait_ok = true;
      gst = new_gst;
      push = record { buffer_new = false; buffer_map = false; push_ok = false };
      shm_yuv = picture 4;
      release_ok = true;
    }
    ∷ []

one_pushed : (Show.show_loop shown_once Show.new_show).pushed ≡ picture 3 ∷ []
unfolding Show.show_loop gst_push_frame
one_pushed = refl
