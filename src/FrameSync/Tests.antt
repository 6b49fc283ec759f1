-- ===== src/FrameSync/Tests.antt =====
-- Runs of the ring at concrete frames, and the theorems at inputs that meet their hypotheses.
use pre.FrameSync.{Frame, Timeval, FrameSync16, init_frame_sync_dvp, store, skip_stale, fetch}
use pre.FrameSync.Invariant.{IsValid}
use pre.FrameSync.Pending.{pending, store_refines, fetch_refines}
use pre.FrameSync.Threads.{outside, Threads, send_enters, Reach, start, next}
use pre.FrameSync.Threads.Safety.{IsSafe, send-IsSafe, Reach-IsSafe}
use pre.Prelude.{length, get_or, ℕ, zero, suc, ◌<◌, ◌≡◌, refl, false, some, [], ◌∷◌, arith}
use pre.Prelude.Int.{◌-ℤ◌}
use pre.Prelude.Floats.{whole}

-- Seconds are counted in whole numbers, so a reader is late from one second on.
abbrev pub noon : Timeval
noon = record { tv_sec = 100; tv_usec = 5 }

abbrev later : Timeval
later = record { tv_sec = 102; tv_usec = 0 }

abbrev fresh : FrameSync16
fresh = init_frame_sync_dvp noon (λ i. i ∷ 0 ∷ [])

-- A ring of two-pixel frames that holds two.
abbrev pub two_waiting : FrameSync16
two_waiting = record {
  write_pos = 1;
  read_pos = 7;
  frame_count = 2;
  buffer_full = false;
  last_frame_time = noon;
  frame_buffer =
      (3 ∷ 4 ∷ [])
      ∷ (0 ∷ 0 ∷ [])
      ∷ (0 ∷ 0 ∷ [])
      ∷ (0 ∷ 0 ∷ [])
      ∷ (0 ∷ 0 ∷ [])
      ∷ (0 ∷ 0 ∷ [])
      ∷ (0 ∷ 0 ∷ [])
      ∷ (1 ∷ 2 ∷ [])
      ∷ [];
}

pub two_waiting-IsValid : IsValid 2 two_waiting
two_waiting-IsValid = record {
  ring = record {
    slots = refl;
    sized = sized;
    read_in = omega arith;
    count_in = omega arith;
    write_at = refl;
  };
  full_iff = refl;
}
  where
    sized : (i : ℕ) → i < 8 → length (get_or two_waiting.frame_buffer i []) ≡ 2
    sized zero h = refl
    sized (suc zero) h = refl
    sized (suc (suc zero)) h = refl
    sized (suc (suc (suc zero))) h = refl
    sized (suc (suc (suc (suc zero)))) h = refl
    sized (suc (suc (suc (suc (suc zero))))) h = refl
    sized (suc (suc (suc (suc (suc (suc zero)))))) h = refl
    sized (suc (suc (suc (suc (suc (suc (suc zero))))))) h = refl
    sized (suc (suc (suc (suc (suc (suc (suc (suc i)))))))) h = absurd (omega arith)

late_takes_newest :
    fetch whole 2 later (9 ∷ 9 ∷ []) two_waiting
    ≡ some
        (record two_waiting { read_pos = 1; frame_count = 0; last_frame_time = later }, 3 ∷ 4 ∷ [])
unfolding fetch skip_stale pre.FrameSync.is_late pre.FrameSync.frame_interval ◌-ℤ◌
late_takes_newest = refl

store_refines_example :
    (t : FrameSync16) × (store 2 (5 ∷ 6 ∷ []) two_waiting ≡ some t)
    × IsValid 2 t
    × (pending t ≡ (1 ∷ 2 ∷ []) ∷ (3 ∷ 4 ∷ []) ∷ (5 ∷ 6 ∷ []) ∷ [])
store_refines_example = store_refines (5 ∷ 6 ∷ []) two_waiting-IsValid (omega arith) (omega arith)

fetch_refines_example :
    (t : FrameSync16) × (out : Frame) × (fetch whole 2 noon (9 ∷ 9 ∷ []) two_waiting
      ≡ some (t, out))
    × IsValid 2 t
    × (out ∷ pending t ≡ (1 ∷ 2 ∷ []) ∷ (3 ∷ 4 ∷ []) ∷ [])
    × (length out ≡ 2)
    × (t.last_frame_time ≡ noon)
unfolding pre.FrameSync.is_late pre.FrameSync.frame_interval ◌-ℤ◌
fetch_refines_example = fetch_refines whole noon (9 ∷ 9 ∷ []) two_waiting-IsValid (omega arith) refl

abbrev idle : Threads
idle = record {
  sync = two_waiting;
  captured = 5 ∷ 6 ∷ [];
  current_time = noon;
  algo_in = 9 ∷ 9 ∷ [];
  producer = outside;
  consumer = outside;
}

idle-IsSafe : IsSafe 2 idle
idle-IsSafe = record {
  valid = two_waiting-IsValid;
  captured_fits = omega arith;
  algo_in_fits = refl;
  producer_waits = λ h. cc;
  consumer_waits = λ h. cc;
}

one_step : Reach whole 2 idle (send-IsSafe idle-IsSafe).0
one_step = next start (send_enters (5 ∷ 6 ∷ []) refl (omega arith) (send-IsSafe idle-IsSafe).1)

Reach-IsSafe_example :
    let t = (send-IsSafe idle-IsSafe).0 in
    IsSafe 2 t
    × ¬ (
        (t.producer ≡ pre.FrameSync.Threads.waiting) × (t.consumer ≡ pre.FrameSync.Threads.waiting))
Reach-IsSafe_example = Reach-IsSafe whole idle-IsSafe one_step
