-- ===== src/FrameSync/Threads.antt =====
-- The capture thread in `DVP_Send` and the output thread in `SHM_VO_Copy`, each in steps between
-- two points where the mutex is free: enter and find the ring ready or wait, be woken, look again.
-- A condition variable may also wake its waiter with no signal, which POSIX allows.
pub mod Safety
use pre.FrameSync.{Frame, Timeval, FrameSync16, store, fetch}
use pre.Prelude.{◌==◌, if◌then◌else◌, ◌>>=◌, length, ℕ, ◌≤◌, ◌≡◌, Option, some}
use pre.Prelude.Floats.{Floats}

-- Where a thread stands: outside its function, in `pthread_cond_wait`, or woken there and waiting
-- for the mutex.
pub data Phase : Type 0 where
  outside waiting woken : Phase

pub record Threads : Type 0 where
  pub sync : FrameSync16
  -- the frame that `DVP_Send` is to store, and the `current_time` that `SHM_VO_Copy` has read
  pub captured : Frame
  pub current_time : Timeval
  pub algo_in : Frame
  pub producer : Phase
  pub consumer : Phase

-- `pthread_cond_signal`
abbrev pub signal : Phase → Phase
signal waiting = woken
signal p = p

module _ (n : ℕ) where
  -- `DVP_Send` from the test of `buffer_full`, with the mutex held. `none` is an access out of
  -- range.
  pub send : Threads → Option Threads
  send s =
      if s.sync.buffer_full
      then some (record s { producer = waiting })
      else (store n s.captured s.sync >>= λ sync.
          some (record s { sync = sync; producer = outside; consumer = signal s.consumer }))

module _ (fl : Floats) (n : ℕ) where
  -- `SHM_VO_Copy` from the test of `frame_count`, with the mutex held.
  pub copy : Threads → Option Threads
  copy s =
      if s.sync.frame_count == 0
      then some (record s { consumer = waiting })
      else (fetch fl n s.current_time s.algo_in s.sync >>= λ r. some (record s {
        sync = r.0;
        algo_in = r.1;
        consumer = outside;
        producer = signal s.producer;
      }))

  pub data Step : Threads → Threads → Type 0 where
    send_enters :
        {s t : Threads} (captured : Frame)
        → s.producer ≡ outside
        → n ≤ length captured
        → send n (record s { captured = captured }) ≡ some t
        → Step s t
    send_resumes : {s t : Threads} → s.producer ≡ woken → send n s ≡ some t → Step s t
    copy_enters :
        {s t : Threads} (now : Timeval)
        → s.consumer ≡ outside
        → copy (record s { current_time = now }) ≡ some t
        → Step s t
    copy_resumes : {s t : Threads} → s.consumer ≡ woken → copy s ≡ some t → Step s t
    producer_woken : {s : Threads} → s.producer ≡ waiting → Step s (record s { producer = woken })
    consumer_woken : {s : Threads} → s.consumer ≡ waiting → Step s (record s { consumer = woken })

  pub data Reach (s : Threads) : Threads → Type 0 where
    start : Reach s s
    next : {t u : Threads} → Reach s t → Step t u → Reach s u
