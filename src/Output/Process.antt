-- ===== src/Output/Process.antt =====
-- `SHM_VO_Send` and `SHM_VO_Process` of src/media/vo/shm_vo.cpp: a frame from the ring through the
-- picture into shared memory.
use pre.FrameSync.{Timeval, FrameSync16, fetch}
use pre.Picture.{Picture, FrameReplies, process_one_frame}
use pre.Prelude.{
  leb, if◌then◌else◌, ◌>>=◌, length, take, drop, ℕ, ◌+◌, ◌-◌, ◌*◌, ◌/◌, Bool, not, ◌&&◌, Option,
  none, some, List, ◌++◌,
}
use pre.Prelude.Int.{ℤ, pos, negsuc}
use pre.Prelude.Floats.{Floats}

-- The shared segments, and the semaphore that guards them.
pub record Shared (F : Type 0) : Type 0 where
  pub shm_yuv : List ℕ
  pub shm_float : List F
  pub semaphore : ℕ

-- Whether the two calls of `semop` succeed; the first one waits until the semaphore is positive.
pub record Semop : Type 0 where
  pub wait_ok : Bool
  pub release_ok : Bool

-- `memcpy` of the first items: `none` past an end.
abbrev pub move : {A : Type 0} → ℕ → List A → List A → Option (List A)
move n dst src =
    if leb n (length dst) && leb n (length src) then some (take n src ++ drop n dst) else none

-- `semop` with -1, once the semaphore is positive, and with +1.
abbrev pub taken : {F : Type 0} → Shared F → Shared F
taken s = record s { semaphore = s.semaphore - 1 }

abbrev pub given_back : {F : Type 0} → Shared F → Shared F
given_back s = record s { semaphore = s.semaphore + 1 }

-- `SHM_VO_Send` of a picture of that many pixels.
unfoldable pub shm_vo_send :
    {F : Type 0} → Semop → ℕ → List ℕ → List F → Shared F → Option (ℤ × Shared F)
shm_vo_send r pixels shm_out_yuv shm_out_float s =
    let held = taken s in
    let sent = (do
      yuv ← move (pixels * 3 / 2) held.shm_yuv shm_out_yuv
      floats ← move pixels held.shm_float shm_out_float
      let copied = record held { shm_yuv = yuv; shm_float = floats }
      some (if not r.release_ok then (negsuc 0, copied) else (pos 0, given_back copied))) in
    if not r.wait_ok then some (negsuc 0, s) else sent

module _ (fl : Floats) (r : FrameReplies fl) (width height : ℕ) where
  -- What the output thread works on.
  pub record Output : Type 0 where
    pub sync : FrameSync16
    pub picture : Picture fl
    pub shared : Shared fl.F

  -- `SHM_VO_Process` once there is a frame in the ring, up to the pause that keeps the frame rate.
  unfoldable pub shm_vo_process : Semop → Timeval → Output → Option (ℤ × Output)
  unfolding shm_vo_send
  shm_vo_process ops now o = do
    (sync, algo_in) ← fetch fl (width * height) now o.picture.algo_in o.sync
    (status, picture) ← process_one_frame r width height (record (o.picture) { algo_in = algo_in })
    (status', shared) ← elim status [
      | negsuc k ↦ some (negsuc 0, o.shared)
      | pos k ↦
          shm_vo_send ops (width * height) (picture.y ++ picture.uv) picture.shm_out_float o.shared
    ]
    some (status', record { sync = sync; picture = picture; shared = shared })
