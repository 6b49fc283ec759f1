-- ===== src/Output/Tests.antt =====
-- The theorems on the output at concrete inputs.
use pre.Output.{
  out_yuv, out_float, mapping_yuv, released, detached_null, held, new_shm, Replies, shm_vo_init,
  shm_vo_exit,
}
use pre.Output.Process.{Shared}
use pre.Output.Laws.{init-exit}
use pre.Prelude.{ℕ, ◌≡◌, refl, true, false, some, [], ◌∷◌, ◌++◌}

-- The second segment cannot be attached.
abbrev replies : Replies
replies = record {
  malloc_in = true;
  malloc_yuv = true;
  malloc_float = true;
  shmget_yuv = true;
  shmget_float = true;
  shmat_yuv = true;
  shmat_float = false;
  semget = true;
  semctl = true;
}

init-exit_example :
    held mapping_yuv 0
      ((shm_vo_init replies new_shm).2 ++ shm_vo_exit (shm_vo_init replies new_shm).1)
    ≡ some 0
init-exit_example = init-exit replies mapping_yuv

-- An exit after a set-up that failed early detaches NULL.
detaches_null :
    shm_vo_exit (shm_vo_init (record replies { malloc_in = false }) new_shm).1
    ≡ released out_yuv ∷ released out_float ∷ detached_null ∷ detached_null ∷ []
unfolding shm_vo_init shm_vo_exit
detaches_null = refl

abbrev shared : Shared ℕ
shared = record { shm_yuv = 0 ∷ 0 ∷ 0 ∷ []; shm_float = 0 ∷ 0 ∷ []; semaphore = 1 }
