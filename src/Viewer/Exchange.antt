-- ===== src/Viewer/Exchange.antt =====
-- The semaphore between `SHM_VO_Send` of src/media/vo/shm_vo.cpp and the loop of shm_gst/main.cpp: both
-- programs in steps, of which the copies of a picture take one for each byte.
pub mod Sound
pub mod Safety
use pre.Prelude.{length, set, get_or, ◌++◌, ℕ, suc, ◌+◌, ◌-◌, ◌<◌, ◌≡◌, List, [], ◌∷◌}

-- Where the program that sends stands: outside, or past so many bytes of a picture.
pub data Writer : Type 0 where
  outside : Writer
  copying : List ℕ → ℕ → Writer

-- Where the program that shows stands: outside, with the bytes that it has copied, or past a
-- `GST_Push_Frame` that failed before its copy.
pub data Reader : Type 0 where
  away failed : Reader
  reading : List ℕ → Reader

pub record Exchange : Type 0 where
  pub semaphore : ℕ
  pub memory : List ℕ
  pub writer : Writer
  pub reader : Reader
  -- the pictures that were sent whole, and those that were shown, the last ones first
  pub sent : List (List ℕ)
  pub shown : List (List ℕ)

-- A new segment, which holds zeros, and the semaphore as `SHM_VO_Init` sets it.
abbrev pub created : List ℕ → Exchange
created zeros = record {
  semaphore = 1;
  memory = zeros;
  writer = outside;
  reader = away;
  sent = [];
  shown = [];
}

-- The steps of both, with a segment of `n` bytes. A `semop` that is to release may fail, after which
-- both programs go on without it.
pub data Step (n : ℕ) : Exchange → Exchange → Type 0 where
  send_waits :
      {s : Exchange} (picture : List ℕ)
      → s.writer ≡ outside
      → 0 < s.semaphore
      → length picture ≡ n
      → Step n s (record s { semaphore = s.semaphore - 1; writer = copying picture 0 })
  send_copies :
      {s : Exchange} (picture : List ℕ) (k : ℕ)
      → s.writer ≡ copying picture k
      → k < n
      → Step n s (record s {
        memory = set s.memory k (get_or picture k 0);
        writer = copying picture (k + 1);
      })
  send_releases :
      {s : Exchange} (picture : List ℕ)
      → s.writer ≡ copying picture n
      → Step n s
          (record s { semaphore = s.semaphore + 1; writer = outside; sent = picture ∷ s.sent })
  send_release_fails :
      {s : Exchange} (picture : List ℕ)
      → s.writer ≡ copying picture n
      → Step n s (record s { writer = outside; sent = picture ∷ s.sent })
  show_waits :
      {s : Exchange}
      → s.reader ≡ away
      → 0 < s.semaphore
      → Step n s (record s { semaphore = s.semaphore - 1; reader = reading [] })
  push_fails : {s : Exchange} → s.reader ≡ reading [] → Step n s (record s { reader = failed })
  failed_releases :
      {s : Exchange}
      → s.reader ≡ failed
      → Step n s (record s { semaphore = s.semaphore + 1; reader = away })
  failed_release_fails : {s : Exchange} → s.reader ≡ failed → Step n s (record s { reader = away })
  show_copies :
      {s : Exchange} (bytes : List ℕ)
      → s.reader ≡ reading bytes
      → length bytes < n
      → Step n s (record s { reader = reading (bytes ++ get_or s.memory (length bytes) 0 ∷ []) })
  show_releases :
      {s : Exchange} (bytes : List ℕ)
      → s.reader ≡ reading bytes
      → length bytes ≡ n
      → Step n s (record s { semaphore = s.semaphore + 1; reader = away; shown = bytes ∷ s.shown })
  show_release_fails :
      {s : Exchange} (bytes : List ℕ)
      → s.reader ≡ reading bytes
      → length bytes ≡ n
      → Step n s (record s { reader = away; shown = bytes ∷ s.shown })

pub data Reach (n : ℕ) (s : Exchange) : Exchange → Type 0 where
  begin : Reach n s s
  next : {t u : Exchange} → Reach n s t → Step n t u → Reach n s u
