-- ===== src/Motor/Continuous.antt =====
-- The continuous move of src/utils/uart/motor.cpp: `Move_IR_Start`, `Move_IR_Stop` and the thread of
-- `ContinuousMoveThread`, in steps between two accesses of the shared variables. One caller at a time.
pub mod Safety
use pre.Motor.{move_ir}
use pre.Prelude.{if◌then◌else◌, ℕ, ◌≡◌, ◌≢◌, Bool, true, false, List, [], ◌∷◌}
use pre.Prelude.Int.{ℤ, pos, negsuc, ◌*ℤ◌}

-- `Motor::Direction`
pub data Direction : Type 0 where
  forward backward halt : Direction

abbrev pub value : Direction → ℤ
value forward = pos 1
value backward = negsuc 0
value halt = pos 0

-- Where the thread stands; one that has ended is still to be joined.
pub data Thread : Type 0 where
  no_thread at_test at_load asleep ended : Thread
  at_move : ℤ → Thread

abbrev pub joinable : Thread → Bool
joinable no_thread = false
joinable _ = true

-- What follows a stop: the return of `Move_IR_Stop`, or the rest of the `Move_IR_Start` that called it.
pub data After : Type 0 where
  back : After
  start : Direction → After

-- Where the caller stands: outside, before an access of `Move_IR_Start`, or before one of `Move_IR_Stop`.
pub data Caller : Type 0 where
  idle storing_flag creating undoing_flag undoing_direction : Caller
  entering storing_direction : Direction → Caller
  clearing_flag clearing_direction joining : After → Caller

pub record Continuous : Type 0 where
  pub running : Bool
  pub direction : ℤ
  pub thread : Thread
  pub caller : Caller
  -- the commands that were sent, the last one first
  pub sent : List (List ℕ)
  -- a `std::thread` was assigned while joinable, which ends the program
  pub terminated : Bool

-- The constructor.
abbrev pub at_rest : Continuous
at_rest = record {
  running = false;
  direction = pos 0;
  thread = no_thread;
  caller = idle;
  sent = [];
  terminated = false;
}

-- The assignment of a new thread, which ends the program where the old one is joinable.
unfoldable pub launch : Continuous → Continuous
launch s =
    if joinable s.thread
    then record s { terminated = true }
    else record s { thread = at_test; caller = idle }

-- Where the caller goes on after a stop.
abbrev pub resumed : After → Caller
resumed back = idle
resumed (start d) = storing_direction d

-- CONTINUOUS_STEP_SIZE
abbrev pub step_size : ℤ
step_size = pos 100

-- The caller's steps and the thread's, each with one access. `std::thread` may fail to make a thread.
pub data Step : Continuous → Continuous → Type 0 where
  calls_start :
      {s : Continuous} (d : Direction) → s.caller ≡ idle → Step s (record s { caller = entering d })
  enters :
      {s : Continuous} (d : Direction)
      → s.caller ≡ entering d
      → Step s
          (record s { caller = if s.running then clearing_flag (start d) else storing_direction d })
  stores_direction :
      {s : Continuous} (d : Direction)
      → s.caller ≡ storing_direction d
      → Step s (record s { direction = value d; caller = storing_flag })
  stores_flag :
      {s : Continuous}
      → s.caller ≡ storing_flag
      → Step s (record s { running = true; caller = creating })
  creates : {s : Continuous} → s.caller ≡ creating → Step s (launch s)
  creation_fails :
      {s : Continuous} → s.caller ≡ creating → Step s (record s { caller = undoing_flag })
  undoes_flag :
      {s : Continuous}
      → s.caller ≡ undoing_flag
      → Step s (record s { running = false; caller = undoing_direction })
  undoes_direction :
      {s : Continuous}
      → s.caller ≡ undoing_direction
      → Step s (record s { direction = pos 0; caller = idle })
  calls_stop :
      {s : Continuous} → s.caller ≡ idle → Step s (record s { caller = clearing_flag back })
  clears_flag :
      {s : Continuous} (a : After)
      → s.caller ≡ clearing_flag a
      → Step s (record s { running = false; caller = clearing_direction a })
  clears_direction :
      {s : Continuous} (a : After)
      → s.caller ≡ clearing_direction a
      → Step s (record s { direction = pos 0; caller = joining a })
  joins_none :
      {s : Continuous} (a : After)
      → s.caller ≡ joining a
      → joinable s.thread ≡ false
      → Step s (record s { caller = resumed a })
  joins :
      {s : Continuous} (a : After)
      → s.caller ≡ joining a
      → s.thread ≡ ended
      → Step s (record s { thread = no_thread; caller = resumed a })
  tests :
      {s : Continuous}
      → s.thread ≡ at_test
      → Step s (record s { thread = if s.running then at_load else ended })
  loads :
      {s : Continuous}
      → s.thread ≡ at_load
      → s.direction ≢ pos 0
      → Step s (record s { thread = at_move s.direction })
  loads_none :
      {s : Continuous}
      → s.thread ≡ at_load
      → s.direction ≡ pos 0
      → Step s (record s { thread = asleep })
  moves :
      {s : Continuous} (d : ℤ)
      → s.thread ≡ at_move d
      → Step s (record s { thread = asleep; sent = move_ir (step_size *ℤ d) ∷ s.sent })
  wakes : {s : Continuous} → s.thread ≡ asleep → Step s (record s { thread = at_test })

pub data Reach (s : Continuous) : Continuous → Type 0 where
  begin : Reach s s
  next : {t u : Continuous} → Reach s t → Step t u → Reach s u
