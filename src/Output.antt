-- ===== src/Output.antt =====
-- The output of pictures through shared memory: src/media/vo/shm_vo.cpp, but for `SHM_VO_Copy`, which
-- is in the ring of frames. What the system answers to each call is an argument.
pub mod Process
pub mod Laws
mod ProcessLaws
mod ProcessTests
mod Tests
use pre.Prelude.{
  ◌==◌, if◌then◌else◌, ℕ, ◌+◌, ◌-◌, Bool, true, false, not, ◌&&◌, ◌||◌, Option, none, some, List,
  [], ◌∷◌, ◌++◌,
}
use pre.Prelude.Int.{ℤ, pos, negsuc}

-- What the set-up gets hold of: three buffers, two segments, where they are attached, the semaphore.
pub data Resource : Type 0 where
  algo_in out_yuv out_float segment_yuv segment_float mapping_yuv mapping_float semaphore : Resource

abbrev pub number : Resource → ℕ
number algo_in = 0
number out_yuv = 1
number out_float = 2
number segment_yuv = 3
number segment_float = 4
number mapping_yuv = 5
number mapping_float = 6
number semaphore = 7

-- A call that acquires or releases a resource; `shmdt` of NULL releases nothing and fails.
pub data Call : Type 0 where
  acquired released : Resource → Call
  detached_null : Call

-- How many resources of a kind are held after some calls, from `n` before them; `none` where one is
-- released that is not held.
abbrev pub held : Resource → ℕ → List Call → Option ℕ
held s n [] = some n
held s n (acquired t ∷ calls) = held s (if number s == number t then n + 1 else n) calls
held s n (released t ∷ calls) =
    let rest = held s (if number s == number t then n - 1 else n) calls in
    if number s == number t && n == 0 then none else rest
held s n (detached_null ∷ calls) = held s n calls

-- An address of a segment: NULL, (void*)-1, or where it is attached.
pub data Address : Type 0 where
  null minus_one attached : Address

-- The globals of src/config/config.c that the output uses; a buffer or an id is told apart only from
-- NULL and from a negative one.
pub record Shm : Type 0 where
  pub has_algo_in : Bool
  pub has_out_yuv : Bool
  pub has_out_float : Bool
  pub shmid_yuv : Bool
  pub shmid_float : Bool
  pub shm_yuv : Address
  pub shm_float : Address
  pub semid_vo : Bool

-- The globals as config.c defines them.
abbrev pub new_shm : Shm
new_shm = record {
  has_algo_in = false;
  has_out_yuv = false;
  has_out_float = false;
  shmid_yuv = false;
  shmid_float = false;
  shm_yuv = null;
  shm_float = null;
  semid_vo = false;
}

-- Whether each call of the set-up succeeds.
pub record Replies : Type 0 where
  pub malloc_in : Bool
  pub malloc_yuv : Bool
  pub malloc_float : Bool
  pub shmget_yuv : Bool
  pub shmget_float : Bool
  pub shmat_yuv : Bool
  pub shmat_float : Bool
  pub semget : Bool
  pub semctl : Bool

abbrev pub got : Bool → Resource → List Call
got true s = acquired s ∷ []
got false s = []

abbrev pub given : Bool → Resource → List Call
given true s = released s ∷ []
given false s = []

abbrev pub mapped : Bool → Address
mapped true = attached
mapped false = minus_one

-- `SHM_VO_Init`: the status, the globals, and the calls that acquired something.
unfoldable pub shm_vo_init : Replies → Shm → ℤ × Shm × List Call
shm_vo_init r g =
    let buffers =
      got r.malloc_in algo_in ++ got r.malloc_yuv out_yuv ++ got r.malloc_float out_float in
    let g1 = record g {
      has_algo_in = r.malloc_in;
      has_out_yuv = r.malloc_yuv;
      has_out_float = r.malloc_float;
    } in
    let segments = buffers ++ got r.shmget_yuv segment_yuv ++ got r.shmget_float segment_float in
    let g2 = record g1 { shmid_yuv = r.shmget_yuv; shmid_float = r.shmget_float } in
    let mappings = segments ++ got r.shmat_yuv mapping_yuv ++ got r.shmat_float mapping_float in
    let g3 = record g2 { shm_yuv = mapped r.shmat_yuv; shm_float = mapped r.shmat_float } in
    let g4 = record g3 { semid_vo = r.semget } in
    if not r.malloc_in || not r.malloc_yuv || not r.malloc_float
    then (negsuc 0, g1, buffers)
    else if not r.shmget_yuv || not r.shmget_float
    then (negsuc 0, g2, segments)
    else if not r.shmat_yuv || not r.shmat_float
    then (negsuc 0, g3, mappings)
    else if not r.semget
    then (negsuc 0, g4, mappings)
    else if not r.semctl
    then (negsuc 0, g4, mappings ++ acquired semaphore ∷ [])
    else (pos 0, g4, mappings ++ acquired semaphore ∷ [])

-- `shmdt` of an address that is not (void*)-1.
abbrev pub detach : Address → Resource → List Call
detach null s = detached_null ∷ []
detach minus_one s = []
detach attached s = released s ∷ []

-- `SHM_VO_Exit`: the calls that it makes; it changes none of the globals.
unfoldable pub shm_vo_exit : Shm → List Call
shm_vo_exit g =
    given g.has_algo_in algo_in
    ++ given g.has_out_yuv out_yuv
    ++ given g.has_out_float out_float
    ++ detach g.shm_yuv mapping_yuv
    ++ detach g.shm_float mapping_float
    ++ given g.shmid_yuv segment_yuv
    ++ given g.shmid_float segment_float
    ++ given g.semid_vo semaphore
