-- ===== src/Viewer/Recorder.antt =====
-- shm/main.cpp as its switches have it: mode B, which reads the segment of one program, and saves every
-- picture to a file. The date in the file's name and the rate of frames that is printed are left out.
pub mod Laws
use pre.Output.{Address, null, minus_one, attached}
use pre.Prelude.{
  ◌==◌, ltb, leb, if◌then◌else◌, ◌>>=◌, length, get_elem?, take, ℕ, zero, suc, ◌+◌, ◌*◌, ◌/◌, ◌%◌,
  ◌^◌, Bool, true, false, not, Option, none, some, List, [], ◌∷◌, ◌++◌,
}
use pre.Prelude.Int.{ℤ, pos, negsuc}

-- ALGO_ALGO_SIZE
abbrev pub algo_size : ℕ
algo_size = 640 * 512 * 3 / 2

-- What the set-up has got hold of.
pub record Resources : Type 0 where
  pub shm_algo : Address
  pub fp_algo : Bool

abbrev pub no_resources : Resources
no_resources = record { shm_algo = null; fp_algo = false }

-- Whether each call of `init_resources` succeeds.
pub record InitReplies : Type 0 where
  pub shmget : Bool
  pub shmat : Bool
  pub semget : Bool
  pub fopen : Bool

unfoldable pub init_resources : InitReplies → Resources → ℤ × Resources
init_resources r s =
    let there = record s { shm_algo = attached } in
    if not r.shmget
    then (negsuc 0, s)
    else if not r.shmat
    then (negsuc 0, record s { shm_algo = minus_one })
    else if not r.semget
    then (negsuc 0, there)
    else if not r.fopen
    then (negsuc 0, there)
    else (pos 0, record there { fp_algo = true })

-- The calls of `cleanup_resources`.
pub data Release : Type 0 where
  shmdt : Address → Release
  fclose : Release

-- `shmdt`, unless the address is (void*)-1
abbrev pub detach : Address → List Release
detach minus_one = []
detach null = shmdt null ∷ []
detach attached = shmdt attached ∷ []

unfoldable pub cleanup_resources : Resources → List Release
cleanup_resources s = detach s.shm_algo ++ (if s.fp_algo then fclose ∷ [] else [])

-- `current_frame_sum`, a byte, from index `i` with the rounds left.
unfoldable pub sum_from : List ℕ → ℕ → ℕ → ℕ → Option ℕ
sum_from shm_algo zero i sum = some sum
sum_from shm_algo (suc left) i sum = do
  v ← get_elem? shm_algo i
  sum_from shm_algo left (i + 1) ((sum + v) % 2 ^ 8)

-- `has_algo_data` from index `i` with the rounds left: the loop ends at the first byte above 0.
unfoldable pub has_data_from : List ℕ → ℕ → ℕ → Option Bool
has_data_from shm_algo zero i = some false
has_data_from shm_algo (suc left) i = do
  v ← get_elem? shm_algo i
  let rest = has_data_from shm_algo left (i + 1)
  if ltb 0 v then some true else rest

-- What `save_frame` keeps between its calls: the sum of the frame before, and the file.
pub record Saved : Type 0 where
  pub last_frame_sum : ℕ
  pub file : List ℕ

-- What `save_frame` prints: a duplicate or not, and whether the frame has data.
pub record Printed : Type 0 where
  pub duplicate : Bool
  pub has_algo_data : Bool

-- `fwrite` of `size` bytes of a segment, of which so many are written: `none` past the segment's end.
abbrev pub fwrite : ℕ → ℕ → List ℕ → Option (List ℕ)
fwrite size written shm_algo =
    if leb size (length shm_algo) then some (take written (take size shm_algo)) else none

-- `save_frame` of frames of `size` bytes, where `fwrite` writes so many of them.
unfoldable pub save_frame : ℕ → ℕ → List ℕ → Saved → Option (ℤ × Printed × Saved)
unfolding sum_from has_data_from
save_frame size written shm_algo s = do
  sum ← sum_from shm_algo 100 0 0
  has_algo_data ← has_data_from shm_algo size 0
  bytes ← fwrite size written shm_algo
  let s' : Saved = record { last_frame_sum = sum; file = s.file ++ bytes }
  let printed : Printed = record {
    duplicate = sum == s.last_frame_sum;
    has_algo_data = has_algo_data;
  }
  some (if written == size then pos 0 else negsuc 0, printed, s')

-- What a round of the main loop meets: whether the program is still to run, the two calls on the
-- semaphore, the memory once it has waited, and how much of it `fwrite` writes.
pub record Round : Type 0 where
  pub running : Bool
  pub wait_ok : Bool
  pub shm_algo : List ℕ
  pub written : ℕ
  pub release_ok : Bool

-- The state of the main loop, with the semaphore that the program holds or not.
pub record Recorder : Type 0 where
  pub saved : Saved
  pub frame_count : ℕ
  pub holds : Bool

-- The main loop for frames of `size` bytes: where it ends, `none` for an access outside of the segment.
unfoldable pub record_loop : ℕ → List Round → Recorder → Option Recorder
unfolding save_frame
record_loop size [] s = some s
record_loop size (r ∷ rounds) s =
    let saving = (do
      (status, printed, saved) ← save_frame size r.written r.shm_algo s.saved
      let kept : Recorder = record s { saved = saved; holds = true }
      let rest =
          record_loop size rounds (record kept { frame_count = s.frame_count + 1; holds = false })
      if not r.release_ok then some kept else rest) in
    if not r.running then some s else if not r.wait_ok then some s else saving

-- The main loop of the program.
unfoldable pub capture : List Round → Recorder → Option Recorder
unfolding record_loop
capture rounds s = record_loop algo_size rounds s
