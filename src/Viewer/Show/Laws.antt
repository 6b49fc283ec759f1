-- ===== src/Viewer/Show/Laws.antt =====
-- What shm_gst/main.cpp leaves behind.
use pre.Output.{attached}
use pre.Prelude.{◌≡◌, ap, Bool, true, ◌&&◌, [], ◌∷◌, arith}
use pre.Prelude.Int.{pos}
use pre.Viewer.Show.{
  yuv, float, csi, Segments, no_segments, init_resources, InitReplies, Show, cleanup_resources,
}

-- Whether the segments and the semaphore are there.
abbrev pub is_ready : InitReplies → Bool
is_ready r =
    (r.shmget_yuv && r.shmget_float && r.shmget_csi)
    && (r.shmat_yuv && r.shmat_float && r.shmat_csi)
    && r.semget

abbrev all_attached : Segments
all_attached = record { shm_yuv = attached; shm_float = attached; shm_csi = attached }

init_resources_ready :
    (r : InitReplies) → is_ready r ≡ true → init_resources r no_segments ≡ (pos 0, all_attached)
unfolding init_resources
init_resources_ready r h = ground (arith, h)

-- Where the segments and the semaphore are there, the clean-up detaches each segment once.
pub cleanup_resources_lem :
    (r : InitReplies)
    → is_ready r ≡ true
    → cleanup_resources ((init_resources r no_segments).1)
      ≡ (yuv, attached) ∷ (float, attached) ∷ (csi, attached) ∷ []
unfolding cleanup_resources
cleanup_resources_lem r h = ap (λ p. cleanup_resources (p.1)) (init_resources_ready r h)
