-- ===== src/FrameSync/Pending.antt =====
-- The ring against its specification: a queue of whole frames, of which a slow reader takes only
-- the newest.
use pre.FrameSync.{
  Frame, Timeval, FrameSync16, buffer_size, next_pos, store, skip_one, skip_stale, is_late, fetch,
}
use pre.FrameSync.Invariant.{
  IsValid, stored, write_in, store-eq-stored, stored-IsValid, taken, taken-IsValid, caught_up,
  caught_up-IsRing, fetch-eq-taken,
}
use pre.Prelude.{
  ltb, if◌then◌else◌, Bool-cases, length, set, get_or, take, get_or-set_self, get_or-set_ne, ℕ,
  zero, suc, ◌+◌, ◌-◌, ◌%◌, ◌≤◌, ◌<◌, ◌≡◌, refl, sym, ap, ap₂, ◌∙◌, inl, inr, some, List, [], ◌∷◌,
  ◌++◌, arith,
}
use pre.Prelude.Floats.{Floats}

module _ (buf : List Frame) where
  -- The `k` frames from slot `p` on, going round the ring.
  abbrev pub frames_from : ℕ → ℕ → List Frame
  frames_from p zero = []
  frames_from p (suc k) = get_or buf p [] ∷ frames_from (next_pos p) k

  length-frames_from : (p k : ℕ) → length (frames_from p k) ≡ k
  length-frames_from p zero = refl
  length-frames_from p (suc k) = ap suc (length-frames_from (next_pos p) k)

  -- The newest of the frames stands at the end.
  frames_from-suc :
      (p k : ℕ)
      → p < buffer_size
      → frames_from p (suc k) ≡ frames_from p k ++ (get_or buf ((p + k) % buffer_size) [] ∷ [])
  frames_from-suc p zero below = ap (λ i. get_or buf i [] ∷ []) (omega arith)
  frames_from-suc p (suc k) below =
      ap (λ r. get_or buf p [] ∷ r)
        (frames_from-suc (next_pos p) k (omega arith)
          ∙ ap (λ i. frames_from (next_pos p) k ++ (get_or buf i [] ∷ [])) (omega arith))

-- A write to a slot `d` places on leaves the first `k ≤ d` frames as they are.
frames_from-set :
    (buf : List Frame) (v : Frame) (i p k : ℕ)
    → i < buffer_size
    → p < buffer_size
    → k ≤ (i + buffer_size - p) % buffer_size
    → frames_from (set buf i v) p k ≡ frames_from buf p k
frames_from-set buf v i p zero hi hp h = refl
frames_from-set buf v i p (suc k) hi hp h =
    ap₂ ◌∷◌ (get_or-set_ne buf i p v [] (omega arith))
      (frames_from-set buf v i (next_pos p) k hi (omega arith) (omega arith))

abbrev pub pending : FrameSync16 → List Frame
pending s = frames_from s.frame_buffer s.read_pos s.frame_count

pub length-pending : (s : FrameSync16) → length (pending s) ≡ s.frame_count
length-pending s = length-frames_from s.frame_buffer s.read_pos s.frame_count

-- A stored frame joins the queue at its end.
pub pending-stored :
    {n : ℕ} {s : FrameSync16} (v : IsValid n s) (captured : Frame)
    → s.frame_count < buffer_size
    → pending (stored n captured s) ≡ pending s ++ (take n captured ∷ [])
pending-stored {n} {s} v captured room =
    let buf = set s.frame_buffer s.write_pos (take n captured) in
    ap (frames_from buf s.read_pos) {y = suc s.frame_count} (omega arith)
    ∙ frames_from-suc buf s.read_pos s.frame_count v.read_in
    ∙ ap₂ (λ xs x. xs ++ (x ∷ []))
        (frames_from-set s.frame_buffer (take n captured) s.write_pos s.read_pos s.frame_count
          (write_in v) v.read_in (omega (arith, v.write_at)))
        (ap (λ i. get_or buf i []) (sym v.write_at)
          ∙ get_or-set_self s.frame_buffer s.write_pos (take n captured) []
              (omega (arith, v.slots, write_in v)))

-- The newest frame of a list, alone; the empty list stays.
pub newest : List Frame → List Frame
newest [] = []
newest (f ∷ []) = f ∷ []
newest (f ∷ g ∷ fs) = newest (g ∷ fs)

newest_of_more :
    (buf : List Frame) (p k : ℕ)
    → 1 < k
    → newest (frames_from buf (next_pos p) (k - 1)) ≡ newest (frames_from buf p k)
unfolding newest
newest_of_more buf p zero more = absurd (omega arith)
newest_of_more buf p (suc zero) more = absurd (omega arith)
newest_of_more buf p (suc (suc k)) more =
    ap (λ c. newest (frames_from buf (next_pos p) c)) {x = suc (suc k) - 1} {y = suc k}
      (omega arith)

newest_of_one :
    (buf : List Frame) (p k : ℕ) → k ≡ 1 → frames_from buf p k ≡ newest (frames_from buf p k)
unfolding newest
newest_of_one buf p k one = rw one

pub pending-skip_stale :
    (fuel : ℕ) (s : FrameSync16)
    → 0 < s.frame_count
    → s.frame_count ≤ fuel
    → pending (skip_stale fuel s) ≡ newest (pending s)
unfolding skip_stale
pending-skip_stale zero s some_left h = absurd (omega arith)
pending-skip_stale (suc fuel) s some_left h = elim (Bool-cases (ltb 1 s.frame_count)) [
  | inl more ↦ rw more (
      pending-skip_stale fuel (skip_one s) (ground arith) (omega arith)
      ∙ newest_of_more s.frame_buffer s.read_pos s.frame_count (ground arith))
  | inr last ↦ rw last (newest_of_one s.frame_buffer s.read_pos s.frame_count (ground arith))
]

-- With room in the ring, `DVP_Send` accesses nothing out of range, keeps the invariant, and appends
-- the captured frame to the frames that wait.
pub store_refines :
    {n : ℕ} {s : FrameSync16} (captured : Frame)
    → IsValid n s
    → n ≤ length captured
    → s.frame_count < buffer_size
    → (t : FrameSync16) × (store n captured s ≡ some t)
      × IsValid n t
      × (pending t ≡ pending s ++ (take n captured ∷ []))
store_refines {n} {s} captured v h room = (
  stored n captured s,
  store-eq-stored v captured h,
  stored-IsValid v captured h room,
  pending-stored v captured room,
)

pending-taken :
    (now : Timeval) (s : FrameSync16)
    → 0 < s.frame_count
    → get_or s.frame_buffer s.read_pos [] ∷ pending (taken now s) ≡ pending s
pending-taken now s some_left =
    frames_from_ne_zero s.frame_buffer s.read_pos s.frame_count some_left
  where
    frames_from_ne_zero :
        (buf : List Frame) (p k : ℕ)
        → 0 < k
        → get_or buf p [] ∷ frames_from buf (next_pos p) (k - 1) ≡ frames_from buf p k
    frames_from_ne_zero buf p zero h = absurd (omega arith)
    frames_from_ne_zero buf p (suc k) h =
        ap (λ c. get_or buf p [] ∷ frames_from buf (next_pos p) c) {x = suc k - 1} {y = k}
          (omega arith)

-- With a frame in the ring, `SHM_VO_Copy` accesses nothing out of range, keeps the invariant and
-- notes the time. It takes the oldest frame and leaves the rest, unless the reader is late: then it
-- takes the newest and leaves none.
pub fetch_refines :
    (fl : Floats) {n : ℕ} {s : FrameSync16} (now : Timeval) (algo_in : Frame)
    → IsValid n s
    → 0 < s.frame_count
    → length algo_in ≡ n
    → (t : FrameSync16) × (out : Frame) × (fetch fl n now algo_in s ≡ some (t, out))
      × IsValid n t
      × (out ∷ pending t
          ≡ (if is_late fl now s.last_frame_time then newest (pending s) else pending s))
      × (length out ≡ n)
      × (t.last_frame_time ≡ now)
fetch_refines fl {n} {s} now algo_in v some_left h =
    let (ring, left) = caught_up-IsRing fl now v.ring some_left in
    let c = caught_up fl now v.ring some_left in
    (
      taken now c,
      get_or c.frame_buffer c.read_pos [],
      fetch-eq-taken fl now v.ring some_left algo_in h,
      taken-IsValid now ring left,
      pending-taken now c left ∙ pending-caught,
      ring.sized c.read_pos ring.read_in,
      refl,
    )
  where
    pending-caught :
        pending (if is_late fl now s.last_frame_time then skip_stale s.frame_count s else s)
        ≡ (if is_late fl now s.last_frame_time then newest (pending s) else pending s)
    pending-caught = elim (Bool-cases (is_late fl now s.last_frame_time)) [
      | inl late ↦ rw late (pending-skip_stale s.frame_count s some_left (omega arith))
      | inr soon ↦ rw soon
    ]
