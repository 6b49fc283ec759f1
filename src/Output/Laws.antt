-- ===== src/Output/Laws.antt =====
-- What the output releases.
use pre.Output.{
  Resource, algo_in, out_yuv, out_float, segment_yuv, segment_float, mapping_yuv, mapping_float,
  semaphore, held, new_shm, Replies, shm_vo_init, shm_vo_exit,
}
use pre.Prelude.{◌≡◌, none, some, ◌++◌, arith}
use pre.Prelude.Int.{pos}

-- Whatever fails of it, what `SHM_VO_Init` got hold of is released by the `SHM_VO_Exit` after it, once
-- each, and nothing else is.
pub init-exit :
    (r : Replies) (s : Resource)
    → held s 0 ((shm_vo_init r new_shm).2 ++ shm_vo_exit (shm_vo_init r new_shm).1) ≡ some 0
unfolding shm_vo_init shm_vo_exit
init-exit r algo_in = ground arith
init-exit r out_yuv = ground arith
init-exit r out_float = ground arith
init-exit r segment_yuv = ground arith
init-exit r segment_float = ground arith
init-exit r mapping_yuv = ground arith
init-exit r mapping_float = ground arith
init-exit r semaphore = ground arith

-- A successful set-up, then two exits: the globals still hold what the first exit released.
pub exit_twice :
    (r : Replies)
    → (shm_vo_init r new_shm).0 ≡ pos 0
    → held algo_in 0 (
        (shm_vo_init r new_shm).2
        ++ shm_vo_exit (shm_vo_init r new_shm).1
        ++ shm_vo_exit (shm_vo_init r new_shm).1)
      ≡ none
unfolding shm_vo_init shm_vo_exit
exit_twice r h = ground arith
