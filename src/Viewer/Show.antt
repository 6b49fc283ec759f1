-- ===== src/Viewer/Show.antt =====
-- shm_gst/main.cpp as its switches have it: mode A without files. What the thread of `gst_thread_func`
-- has left of the globals of gst.cpp is an argument in each round. The rates that are printed
-- and the end of `main`, with the join of that thread, are left out.
pub mod Laws
use pre.Output.{Address, null, minus_one, attached}
use pre.Prelude.{if◌then◌else◌, ℕ, ◌+◌, Bool, true, false, not, ◌&&◌, List, [], ◌∷◌, ◌++◌}
use pre.Prelude.Int.{ℤ, pos, negsuc}
use pre.Viewer.Gst.{Gst, Call, PushReplies, gst_push_frame}

pub data Segment : Type 0 where
  yuv float csi : Segment

-- `shm_yuv`, `shm_float` and `shm_csi`
pub record Segments : Type 0 where
  pub shm_yuv : Address
  pub shm_float : Address
  pub shm_csi : Address

abbrev pub no_segments : Segments
no_segments = record { shm_yuv = null; shm_float = null; shm_csi = null }

-- Whether each call of `init_resources` succeeds.
pub record InitReplies : Type 0 where
  pub shmget_yuv : Bool
  pub shmget_float : Bool
  pub shmget_csi : Bool
  pub shmat_yuv : Bool
  pub shmat_float : Bool
  pub shmat_csi : Bool
  pub semget : Bool

-- What `shmat` returns.
abbrev pub address : Bool → Address
address ok = if ok then attached else minus_one

unfoldable pub init_resources : InitReplies → Segments → ℤ × Segments
init_resources r s =
    let there : Segments = record {
      shm_yuv = address r.shmat_yuv;
      shm_float = address r.shmat_float;
      shm_csi = address r.shmat_csi;
    } in
    if not (r.shmget_yuv && r.shmget_float && r.shmget_csi)
    then (negsuc 0, s)
    else if not (r.shmat_yuv && r.shmat_float && r.shmat_csi)
    then (negsuc 0, there)
    else if not r.semget
    then (negsuc 0, there)
    else (pos 0, there)

-- `shmdt`, unless the address is (void*)-1
abbrev pub detach : Segment → Address → List (Segment × Address)
detach p minus_one = []
detach p null = (p, null) ∷ []
detach p attached = (p, attached) ∷ []

unfoldable pub cleanup_resources : Segments → List (Segment × Address)
cleanup_resources s = detach yuv s.shm_yuv ++ detach float s.shm_float ++ detach csi s.shm_csi

-- What a round of the main loop meets: whether the program is still to run, the two calls on the
-- semaphore, the globals of gst.cpp, what `GST_Push_Frame` meets, and the picture in `shm_yuv`.
pub record Round : Type 0 where
  pub running : Bool
  pub wait_ok : Bool
  pub gst : Gst
  pub push : PushReplies
  pub shm_yuv : List ℕ
  pub release_ok : Bool

-- The state of the main loop, with the pictures that were pushed, the calls of `GST_Push_Frame`, and
-- the semaphore that the program holds or not.
pub record Show : Type 0 where
  pub frame_count : ℕ
  pub pushed : List (List ℕ)
  pub calls : List Call
  pub holds : Bool

abbrev pub new_show : Show
new_show = record { frame_count = 0; pushed = []; calls = []; holds = false }

-- The picture, where `GST_Push_Frame` returns 0.
abbrev pub if_pushed : ℤ → List ℕ → List (List ℕ)
if_pushed (pos n) picture = picture ∷ []
if_pushed (negsuc n) picture = []

-- The main loop over as many rounds as are given, whose rounds go on whatever `GST_Push_Frame` returns.
unfoldable pub show_loop : List Round → Show → Show
show_loop [] s = s
show_loop (r ∷ rounds) s =
    let (status, calls) = gst_push_frame r.push r.gst in
    let held : Show = record s {
      pushed = s.pushed ++ if_pushed status r.shm_yuv;
      calls = s.calls ++ calls;
      holds = true;
    } in
    let rest = show_loop rounds (record held { frame_count = s.frame_count + 1; holds = false }) in
    if not r.running
    then s
    else if not r.wait_ok
    then s
    else if not r.release_ok
    then held
    else rest
